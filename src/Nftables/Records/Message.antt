-- ===== src/Nftables/Records/Message.antt =====
-- The rule message that src/nfnetlink.rs sends is one that its dump parser recognises.
use mathlib.Core.Path.{subst}
use zerun.Prelude.{
  ℕ, suc, ◌+◌, ◌*◌, ◌%◌, ◌^◌, ◌<◌, ◌≤◌, true, false, none, some, List, [], ◌∷◌, ◌++◌, ◌≡◌, refl,
  sym, ◌∙◌, ap, arith, All, all, ok, length, take, drop, length-append, length-replicate, replicate,
  take-append, drop-append, leb, append_assoc, append-nil, map, Text, bytes, text_eq_refl,
}
use zerun.Nftables.{Attr, nla, nlmsg, padding, align, frame, parse_attrs}
use zerun.Nftables.Messages.{msg_new_rule, nft_msg, nfgenmsg, rule_flags}
use zerun.Nftables.Attributes.{encoded, FitsAttr, masked, parse_attrs-encoded, frame-fits}
use zerun.Nftables.Records.Names.{is_name_char, parse_string-name}
use zerun.Nftables.Records.{rules_from, parse_rule_dump, gather, no_fields, matching}

-- The attributes of the message, before they are written
abbrev rule_attrs : Text → Text → List ℕ → List ℕ → List Attr
rule_attrs table chain expressions marker =
    (1, bytes table ++ 0 ∷ [])
    ∷ (2, bytes chain ++ 0 ∷ [])
    ∷ (0x8004, expressions)
    ∷ (7, marker)
    ∷ []

length-nla : (typ : ℕ) (payload : List ℕ) → length (nla typ payload) ≡ align (4 + length payload)
unfolding nla
length-nla typ payload = omega (
  arith,
  length-append payload (replicate (padding (4 + length payload)) 0),
  length-replicate {A = ℕ} (padding (4 + length payload)) 0,
)

drop_all : (n : ℕ) (xs : List ℕ) → n ≡ length xs → drop n xs ≡ []
drop_all n xs h = subst (λ r. drop n r ≡ []) (append-nil xs) (drop-append n xs [] h)

take_all : (n : ℕ) (xs : List ℕ) → n ≡ length xs → take n xs ≡ xs
take_all n xs h = subst (λ r. take n r ≡ xs) (append-nil xs) (take-append n xs [] h)

-- One message fills the buffer.
rules_from-message :
    (table chain : Text) (fuel a b c d e f : ℕ) (payload : List ℕ) (attrs : List Attr)
    → a + b * 256 + (c + d * 256) * 65536 ≡ 20 + length payload
    → length payload % 4 ≡ 0
    → parse_attrs payload ≡ ok attrs
    → rules_from table chain
        (suc fuel)
        (a ∷ b ∷ c ∷ d ∷ 6 ∷ 10 ∷ e ∷ f ∷ 1 ∷ 0 ∷ 0 ∷ 0 ∷ 0 ∷ 0 ∷ 0 ∷ 0 ∷ 2 ∷ 0 ∷ 0 ∷ 0 ∷ payload)
      ≡ ok (matching table chain (gather attrs no_fields), false)
unfolding rules_from
rules_from-message table chain fuel a b c d e f payload attrs size whole parsed =
    let n = length payload in
    let buf : List ℕ =
      a ∷ b ∷ c ∷ d ∷ 6 ∷ 10 ∷ e ∷ f ∷ 1 ∷ 0 ∷ 0 ∷ 0 ∷ 0 ∷ 0 ∷ 0 ∷ 0 ∷ 2 ∷ 0 ∷ 0 ∷ 0 ∷ payload in
    let framed : frame 16 (20 + n) buf ≡ ok tt =
      frame-fits 16 (20 + n) buf (omega arith) (omega arith) in
    let behind : drop (align (20 + n)) buf ≡ [] = drop_all (align (20 + n)) buf (omega arith) in
    let inside : take (20 + n) buf ≡ buf = take_all (20 + n) buf (omega arith) in
    let long : leb 20 (20 + n) ≡ true = ground arith in
    rw (size, framed, behind, long, inside, parsed, append-nil) refl

encoded_whole : (attrs : List Attr) → length (encoded attrs) % 4 ≡ 0
encoded_whole [] = refl
encoded_whole ((typ, payload) ∷ attrs) = omega (
  arith,
  length-append (nla typ payload) (encoded attrs),
  length-nla typ payload,
  encoded_whole attrs,
)

length-encoded :
    (attrs : List Attr) → All FitsAttr attrs → length (encoded attrs) ≤ length attrs * 65536
length-encoded [] fits = omega arith
length-encoded ((typ, payload) ∷ attrs) ((small, fit), fits) = omega (
  arith,
  length-append (nla typ payload) (encoded attrs),
  length-nla typ payload,
  length-encoded attrs fits,
)

gather-rule_attrs :
    (table chain : Text) (expressions marker : List ℕ)
    → all is_name_char table ≡ true
    → all is_name_char chain ≡ true
    → matching table chain
        (gather (map masked (rule_attrs table chain expressions marker)) no_fields)
      ≡ record { handle = none; userdata = some marker } ∷ []
unfolding gather
gather-rule_attrs table chain expressions marker ht hc =
    rw
      (
        parse_string-name table ht,
        parse_string-name chain hc,
        text_eq_refl (bytes table),
        text_eq_refl (bytes chain),
      )
      refl

parse_rule_dump-attrs :
    (table chain : Text) (attrs : List Attr)
    → All FitsAttr attrs
    → length (encoded attrs) < 2 ^ 31
    → parse_rule_dump (nft_msg 6 rule_flags (encoded attrs)) table chain
      ≡ ok (matching table chain (gather (map masked attrs) no_fields), false)
unfolding parse_rule_dump nft_msg nfgenmsg nlmsg
parse_rule_dump-attrs table chain attrs fits short =
    rules_from-message table chain _ _ _ _ _ _ _ (encoded attrs) (map masked attrs) (omega arith)
      (encoded_whole attrs) (parse_attrs-encoded attrs fits)

-- The message that adds the rule, read as a dump of the chain, gives one record: it has the marker
-- and no handle. The two names are characters other than NUL, and the fields fit 16 bits.
pub parse_rule_dump-msg_new_rule :
    (table chain : Text) (expressions marker : List ℕ)
    → all is_name_char table ≡ true
    → all is_name_char chain ≡ true
    → length (bytes table) < 60000
    → length (bytes chain) < 60000
    → length expressions < 60000
    → length marker < 60000
    → parse_rule_dump (msg_new_rule table chain expressions (some marker)) table chain
      ≡ ok (record { handle = none; userdata = some marker } ∷ [], false)
unfolding msg_new_rule
parse_rule_dump-msg_new_rule table chain expressions marker ht hc lt lc le lm =
    let attrs = rule_attrs table chain expressions marker in
    let fits : All FitsAttr attrs = (
      (omega arith, omega (arith, length-append (bytes table) (0 ∷ []))),
      (
        (omega arith, omega (arith, length-append (bytes chain) (0 ∷ []))),
        ((omega arith, omega arith), ((omega arith, omega arith), tt)),
      ),
    ) in
    let short : length (encoded attrs) < 2 ^ 31 = omega (arith, length-encoded attrs fits) in
    let a = nla 1 (bytes table ++ 0 ∷ []) in
    let b = nla 2 (bytes chain ++ 0 ∷ []) in
    let c = nla 0x8004 expressions in
    let d = nla 7 marker in
    let joined : encoded attrs ≡ a ++ b ++ c ++ d = rw (append-nil d) (
      ap (λ r. a ++ r) (sym (append_assoc b c d))
      ∙ sym (append_assoc a (b ++ c) d)
      ∙ ap (λ r. r ++ d) (sym (append_assoc a b c))) in
    subst
      (λ e.
        parse_rule_dump (nft_msg 6 rule_flags e) table chain
        ≡ ok (record { handle = none; userdata = some marker } ∷ [], false))
      joined
      (parse_rule_dump-attrs table chain attrs fits short
        ∙ ap (λ r. ok (r, false)) (gather-rule_attrs table chain expressions marker ht hc))

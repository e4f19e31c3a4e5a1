-- ===== src/Nftables/Records/Ends.antt =====
-- The parsing loops of src/nfnetlink.rs end on every datagram.
use zerun.Prelude.{
  ℕ, zero, suc, ◌≤◌, ◌<◌, Bool, true, false, ◌||◌, List, [], ◌∷◌, ◌≡◌, refl, ◌⊎◌, inl, inr, arith,
  Result, ok, err, ◌>>=◌, ltb, leb, ◌==◌, length, drop, take, length-drop, Text, Bool-cases,
}
use zerun.Nftables.{
  NetlinkError, Attr, frame, align, stuck, truncated_header, malformed_length, malformed_padding,
  attrs_from, parse_attrs, cons_attr, u16_at, u32_at,
}
use zerun.Nftables.Records.{
  RuleRecord, rules_from, parse_rule_dump, rule_message, errno_result, add_records, errors_from,
  parse_nlmsg_error,
}

-- The model's loop ran out of rounds.
abbrev pub is_stuck_error : NetlinkError → Bool
is_stuck_error stuck = true
is_stuck_error e = false

abbrev pub is_stuck {ℓ} : {A : Type ℓ} → Result NetlinkError A → Bool
is_stuck (err e) = is_stuck_error e
is_stuck (ok a) = false

frame-cases :
    (header len : ℕ) (buf : List ℕ)
    → ((frame header len buf ≡ ok tt) × (header ≤ len) × (align len ≤ length buf))
      ⊎ ((e : NetlinkError) × (frame header len buf ≡ err e) × (is_stuck_error e ≡ false))
frame-cases header len buf = elim (Bool-cases (ltb (length buf) header)) [
  | inl short ↦ inr (truncated_header, rw short refl, refl)
  | inr whole ↦ elim (Bool-cases (ltb len header || ltb (length buf) len)) [
    | inl bad ↦ inr (malformed_length, rw (whole, bad) refl, refl)
    | inr good ↦ elim (Bool-cases (ltb (length buf) (align len))) [
      | inl cut ↦ inr (malformed_padding, rw (whole, good, cut) refl, refl)
      | inr fits ↦ inl (rw (whole, good, fits) refl, ground arith, ground arith)
    ]
  ]
]

is_stuck-cons_attr :
    (a : Attr) (r : Result NetlinkError (List Attr)) → is_stuck (cons_attr a r) ≡ is_stuck r
is_stuck-cons_attr a (err e) = refl
is_stuck-cons_attr a (ok attrs) = refl

-- A round that goes on leaves fewer bytes.
fewer :
    (fuel header len b : ℕ) (buf : List ℕ)
    → length (b ∷ buf) ≤ suc fuel
    → 0 < header
    → header ≤ len
    → length (drop (align len) (b ∷ buf)) ≤ fuel
fewer fuel header len b buf h some_header grows = omega (arith, length-drop (align len) (b ∷ buf))

attrs_from-ends :
    (fuel : ℕ) (buf : List ℕ) → length buf ≤ fuel → is_stuck (attrs_from fuel buf) ≡ false
unfolding attrs_from
attrs_from-ends fuel [] h = refl
attrs_from-ends zero (b ∷ buf) h = absurd (omega arith)
attrs_from-ends (suc fuel) (b ∷ buf) h =
    let len = u16_at 0 (b ∷ buf) in
    elim (frame-cases 4 len (b ∷ buf)) [
      | inl (framed, grows, fits) ↦
          let later =
            attrs_from-ends fuel (drop (align len) (b ∷ buf))
              (fewer fuel 4 len b buf h (omega arith) grows) in
          rw (framed, is_stuck-cons_attr _ (attrs_from fuel (drop (align len) (b ∷ buf)))) later
      | inr (e, bad, other) ↦ rw bad other
    ]

pub parse_attrs-ends : (buf : List ℕ) → is_stuck (parse_attrs buf) ≡ false
unfolding parse_attrs
parse_attrs-ends buf = attrs_from-ends (length buf) buf (omega arith)

module _ {ℓ κ} {A : Type ℓ} {B : Type κ} where
  is_stuck->>= :
      (r : Result NetlinkError A) (next : A → Result NetlinkError B)
      → is_stuck r ≡ false
      → ((a : A) → is_stuck (next a) ≡ false)
      → is_stuck (r >>= next) ≡ false
  is_stuck->>= (err e) next h k = h
  is_stuck->>= (ok a) next h k = k a

is_stuck-errno_result : (v : ℕ) → is_stuck (errno_result v) ≡ false
is_stuck-errno_result v = ground arith

is_stuck-rule_message :
    (table chain : Text) (len : ℕ) (buf : List ℕ)
    → is_stuck (rule_message table chain len buf) ≡ false
is_stuck-rule_message table chain len buf =
    let attributes =
      is_stuck->>= (parse_attrs (drop 20 (take len buf))) _
        (parse_attrs-ends (drop 20 (take len buf))) (λ attrs. refl) in
    elim (Bool-cases (u16_at 4 buf == 2)) [
      | inl an_error ↦ elim (Bool-cases (ltb len 20)) [
        | inl short ↦ rw (an_error, short) refl
        | inr long ↦ rw (an_error, long) (is_stuck-errno_result (u32_at 16 buf))
      ]
      | inr other ↦ elim (Bool-cases (leb 20 len)) [
        | inl long ↦ rw (other, long) attributes
        | inr short ↦ rw (other, short) refl
      ]
    ]

is_stuck-add_records :
    (found : List RuleRecord) (r : Result NetlinkError (List RuleRecord × Bool))
    → is_stuck (add_records found r) ≡ is_stuck r
is_stuck-add_records found (err e) = refl
is_stuck-add_records found (ok (later, done)) = refl

module _ (table chain : Text) where
  rules_from-ends :
      (fuel : ℕ) (buf : List ℕ)
      → length buf ≤ fuel
      → is_stuck (rules_from table chain fuel buf) ≡ false
  unfolding rules_from
  rules_from-ends fuel [] h = refl
  rules_from-ends zero (b ∷ buf) h = absurd (omega arith)
  rules_from-ends (suc fuel) (b ∷ buf) h =
      let len = u32_at 0 (b ∷ buf) in
      let rest = drop (align len) (b ∷ buf) in
      elim (frame-cases 16 len (b ∷ buf)) [
        | inl (framed, grows, fits) ↦
            let later = rules_from-ends fuel rest (fewer fuel 16 len b buf h (omega arith) grows) in
            elim (Bool-cases (u16_at 4 (b ∷ buf) == 3)) [
              | inl done ↦ rw (framed, done) refl
              | inr more ↦
                  rw (framed, more)
                    (is_stuck->>= (rule_message table chain len (b ∷ buf)) _
                      (is_stuck-rule_message table chain len (b ∷ buf))
                      (λ found.
                        rw (is_stuck-add_records found (rules_from table chain fuel rest)) later))
            ]
        | inr (e, bad, other) ↦ rw bad other
      ]

errors_from-ends :
    (fuel : ℕ) (buf : List ℕ) → length buf ≤ fuel → is_stuck (errors_from fuel buf) ≡ false
unfolding errors_from
errors_from-ends fuel [] h = refl
errors_from-ends zero (b ∷ buf) h = absurd (omega arith)
errors_from-ends (suc fuel) (b ∷ buf) h =
    let len = u32_at 0 (b ∷ buf) in
    elim (frame-cases 16 len (b ∷ buf)) [
      | inl (framed, grows, fits) ↦
          let later =
            errors_from-ends fuel (drop (align len) (b ∷ buf))
              (fewer fuel 16 len b buf h (omega arith) grows) in
          rw framed (ground (arith, later))
      | inr (e, bad, other) ↦ rw bad other
    ]

-- Whatever the bytes and the names, the attributes, the rule dump and the error reply are parsed in
-- as many rounds as the buffer has bytes: the loops end.
pub loops_end :
    (table chain : Text) (buf : List ℕ)
    → (is_stuck (parse_attrs buf) ≡ false)
      × (is_stuck (parse_rule_dump buf table chain) ≡ false)
      × (is_stuck (parse_nlmsg_error buf) ≡ false)
unfolding parse_rule_dump parse_nlmsg_error
loops_end table chain buf = (
  parse_attrs-ends buf,
  rules_from-ends table chain (length buf) buf (omega arith),
  errors_from-ends (length buf) buf (omega arith),
)

-- ===== src/Nftables/Messages.antt =====
-- The messages and the masquerade rule that src/nfnetlink.rs builds.
use Prim.Native.Nat.{bit_or, min}
use zerun.Prelude.{
  ℕ, ◌-◌, ◌*◌, ◌/◌, ◌%◌, ◌^◌, Option, none, some, List, [], ◌∷◌, ◌++◌, ltb, ◌==◌, if◌then◌else◌,
  length, take, replicate, Text, bytes, codes,
}
use zerun.Nftables.{be32, be64, nla, nla_nested, nla_str, nla_be32, nlmsg}

-- `nfgenmsg`: family, version, resource in network order
unfoldable pub nfgenmsg : ℕ → ℕ → List ℕ
nfgenmsg family res_id = family ∷ 0 ∷ (res_id / 256 % 256) ∷ (res_id % 256) ∷ []

abbrev pub subsys_nftables : ℕ
subsys_nftables = 10

abbrev pub family_ipv4 : ℕ
family_ipv4 = 2

abbrev pub family_unspec : ℕ
family_unspec = 0

abbrev pub flag_request : ℕ
flag_request = 0x0001

abbrev pub flag_create : ℕ
flag_create = 0x0400

abbrev pub flag_append : ℕ
flag_append = 0x0800

unfoldable pub nft_msg : ℕ → ℕ → List ℕ → List ℕ
nft_msg msg_type flags attrs =
    nlmsg (bit_or (subsys_nftables * 256) msg_type) flags (nfgenmsg family_ipv4 0 ++ attrs)

-- 16 begins a batch, and 17 ends it.
unfoldable pub batch_bookend : ℕ → List ℕ
batch_bookend msg_type = nlmsg msg_type flag_request (nfgenmsg family_unspec subsys_nftables)

unfoldable pub msg_new_table : Text → List ℕ
msg_new_table name = nft_msg 0 (bit_or flag_request flag_create) (nla_str 1 name ++ nla_be32 2 0)

unfoldable pub msg_del_table : Text → List ℕ
msg_del_table name = nft_msg 2 flag_request (nla_str 1 name)

unfoldable pub msg_new_chain : Text → Text → ℕ → ℕ → List ℕ
msg_new_chain table chain hooknum priority = nft_msg 3 (bit_or flag_request flag_create) (
    nla_str 1 table
    ++ nla_str 3 chain
    ++ nla_be32 5 1
    ++ nla_str 7 (codes "nat")
    ++ nla_nested 4 (nla_be32 1 hooknum ++ nla_be32 2 priority))

abbrev pub rule_userdata : Option (List ℕ) → List ℕ
rule_userdata none = []
rule_userdata (some marker) = nla 7 marker

abbrev pub rule_flags : ℕ
rule_flags = bit_or (bit_or flag_request flag_create) flag_append

unfoldable pub msg_new_rule : Text → Text → List ℕ → Option (List ℕ) → List ℕ
msg_new_rule table chain expressions userdata =
    nft_msg 6 rule_flags
      (nla_str 1 table ++ nla_str 2 chain ++ nla_nested 4 expressions ++ rule_userdata userdata)

unfoldable pub msg_del_rule : Text → Text → ℕ → List ℕ
msg_del_rule table chain handle =
    nft_msg 8 flag_request (nla_str 1 table ++ nla_str 2 chain ++ nla 3 (be64 handle))

-- The expressions; each is one element of the list that a rule nests.
unfoldable pub expr : Text → List ℕ → List ℕ
expr name data_bytes = nla_nested 1 (nla_str 1 name ++ nla_nested 2 data_bytes)

abbrev pub data_value : List ℕ → List ℕ
data_value raw = nla 1 raw

unfoldable pub cmp_expr : ℕ → ℕ → List ℕ → List ℕ
cmp_expr reg op value =
    expr (codes "cmp") (nla_be32 1 reg ++ nla_be32 2 op ++ nla_nested 3 (data_value value))

unfoldable pub payload_expr : ℕ → ℕ → ℕ → ℕ → List ℕ
payload_expr reg base offset len =
    expr (codes "payload")
      (nla_be32 1 reg ++ nla_be32 2 base ++ nla_be32 3 offset ++ nla_be32 4 len)

unfoldable pub meta_expr : ℕ → ℕ → List ℕ
meta_expr reg key = expr (codes "meta") (nla_be32 2 key ++ nla_be32 1 reg)

unfoldable pub masq_expr : List ℕ
masq_expr = expr (codes "masq") []

unfoldable pub bitwise_and_expr : ℕ → ℕ → List ℕ → List ℕ
bitwise_and_expr reg len mask = expr (codes "bitwise") (
    nla_be32 1 reg
    ++ nla_be32 2 reg
    ++ nla_be32 3 len
    ++ nla_nested 4 (data_value mask)
    ++ nla_nested 5 (data_value (replicate 4 0)))

-- A shift of a u32 drops what leaves it.
unfoldable pub prefix_to_mask : ℕ → List ℕ
unfolding be32
prefix_to_mask prefix = be32 (if prefix == 0 then 0 else (2 ^ 32 - 1) * 2 ^ (32 - prefix) % 2 ^ 32)

-- `network` is the octets of an IPv4 address, register 1 and the network header the source's.
unfoldable pub ip_saddr_match : List ℕ → ℕ → List ℕ
ip_saddr_match network prefix =
    payload_expr 1 1 12 4
    ++ (if ltb prefix 32
        then bitwise_and_expr 1 4 (prefix_to_mask prefix) ++ cmp_expr 1 0 network
        else cmp_expr 1 0 network)

abbrev pub ifname_value : Text → List ℕ
ifname_value name =
    let n = min (length (bytes name)) 16 in take n (bytes name) ++ replicate (16 - n) 0

unfoldable pub oifname_neq : Text → List ℕ
oifname_neq name = meta_expr 1 7 ++ cmp_expr 1 1 (ifname_value name)

unfoldable pub masquerade_rule : List ℕ → ℕ → List ℕ
masquerade_rule network prefix =
    ip_saddr_match network prefix ++ oifname_neq (codes "zerun0") ++ masq_expr

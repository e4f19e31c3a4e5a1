-- ===== src/Network/Proxy/Slots.antt =====
-- The counter of src/network.rs tells the number of slots that are held, in every interleaving.
use zerun.Prelude.{
  ℕ, zero, suc, ◌+◌, ◌≤◌, ◌<◌, Bool, true, false, List, [], ◌∷◌, ◌++◌, ◌≡◌, refl, arith,
  if◌then◌else◌, length, length-append,
}
use zerun.Network.Proxy.{
  tcp_proxy_connection_limit, try_acquire_tcp_proxy_slot, release_tcp_proxy_slot, admit, Listener,
  Proxies, listener_after, accept, spawn, spawn_failed, finish, started, Reachable, start, next,
}

-- How many accept loops hold a slot for a connection that has no thread yet
abbrev pub held_by : Listener → ℕ
held_by l = if l.holds_slot then 1 else 0

abbrev pub held : List Listener → ℕ
held [] = 0
held (l ∷ ls) = held_by l + held ls

-- Every slot is held by a connection or by an accept loop, and the slots are within the limit.
abbrev pub Exact : Proxies → Type 0
Exact s = (s.active ≡ length s.clients + held s.listeners) × (s.active ≤ tcp_proxy_connection_limit)

release-suc : (n : ℕ) → n < 64 → release_tcp_proxy_slot (n + 1) ≡ n
unfolding release_tcp_proxy_slot
release-suc n h = omega (arith, h)

held-append : (before after : List Listener) → held (before ++ after) ≡ held before + held after
held-append [] after = omega arith
held-append (l ∷ before) after = omega (arith, held-append before after)

held-started : (n : ℕ) → held (started n) ≡ 0
held-started zero = refl
held-started (suc n) = omega (arith, held-started n)

-- A slot is taken below the limit, by the loop that asked.
admit-held :
    (warned_full : Bool) (active : ℕ)
    → active ≤ 64
    → ((admit warned_full active).active
        ≡ active + held_by (listener_after (admit warned_full active)))
      × ((admit warned_full active).active ≤ 64)
unfolding admit try_acquire_tcp_proxy_slot
admit-held warned_full active within = ground (arith, within)

-- In every state that the accept loops and the ends of connections can reach, in whatever order their
-- single steps are taken, the counter is the number of open connections and of accept loops that hold a
-- slot for a connection whose thread has not started, and it is at most 64: so at most 64 are open.
pub Reachable-Exact : (s : Proxies) → Reachable s → Exact s
Reachable-Exact s (start n) = (omega (arith, held-started n), omega arith)
Reachable-Exact s (next earlier (accept active warned_full before after clients)) =
    let (counts, within) = Reachable-Exact _ earlier in
    let waiting : Listener = record { warned_full = warned_full; holds_slot = false } in
    let (taken, bound) = admit-held warned_full active within in
    (
      omega (
        arith,
        counts,
        taken,
        held-append before (waiting ∷ after),
        held-append before (listener_after (admit warned_full active) ∷ after),
      ),
      bound,
    )
Reachable-Exact s (next earlier (spawn active client warned_full before after clients)) =
    let (counts, within) = Reachable-Exact _ earlier in
    let holding : Listener = record { warned_full = warned_full; holds_slot = true } in
    let waiting : Listener = record { warned_full = warned_full; holds_slot = false } in
    (
      omega (
        arith,
        counts,
        held-append before (holding ∷ after),
        held-append before (waiting ∷ after),
      ),
      within,
    )
Reachable-Exact s (next earlier (spawn_failed active warned_full before after clients)) =
    let (counts, within) = Reachable-Exact _ earlier in
    let holding : Listener = record { warned_full = warned_full; holds_slot = true } in
    let waiting : Listener = record { warned_full = warned_full; holds_slot = false } in
    let rest = length clients + held (before ++ waiting ∷ after) in
    let one_more : active ≡ rest + 1 =
      omega (
        arith,
        counts,
        held-append before (holding ∷ after),
        held-append before (waiting ∷ after),
      ) in
    let small : rest < 64 = omega (arith, one_more, within) in
    ground (arith, one_more, small, release-suc rest small)
Reachable-Exact s (next earlier (finish active client listeners before after)) =
    let (counts, within) = Reachable-Exact _ earlier in
    let rest = length (before ++ after) + held listeners in
    let one_more : active ≡ rest + 1 =
      omega (arith, counts, length-append before (client ∷ after), length-append before after) in
    let small : rest < 64 = omega (arith, one_more, within) in
    ground (arith, one_more, small, release-suc rest small)

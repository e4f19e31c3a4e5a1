-- ===== src/Network/Proxy/Examples.antt =====
-- Runs of the connection limit of src/network.rs.
use zerun.Prelude.{true, false, [], ◌∷◌, ◌≡◌, refl}
use zerun.Network.Proxy.{
  try_acquire_tcp_proxy_slot, release_tcp_proxy_slot, admit, Proxies, accept, spawn, spawn_failed,
  Reachable, start, next,
}
use zerun.Network.Proxy.Slots.{Exact, Reachable-Exact}

full_run :
    admit false 64 ≡ record { holds_slot = false; active = 64; warned_full = true; warns = true }
unfolding admit try_acquire_tcp_proxy_slot
full_run = refl

-- One loop has a connection without a thread, while the other has one that is open.
abbrev half_open : Proxies
half_open = record {
  active = 2;
  listeners =
      record { warned_full = false; holds_slot = true }
      ∷ record { warned_full = false; holds_slot = false }
      ∷ [];
  clients = 9 ∷ [];
}

half_open-Reachable : Reachable half_open
unfolding admit try_acquire_tcp_proxy_slot
half_open-Reachable =
    next (next (next (start 2) (accept 0 false [] _ [])) (accept 1 false (_ ∷ []) [] []))
      (spawn 2 9 false (_ ∷ []) [] [])

given_back : Reachable (record half_open {
  active = release_tcp_proxy_slot 2;
  listeners =
      record { warned_full = false; holds_slot = false }
      ∷ record { warned_full = false; holds_slot = false }
      ∷ [];
})
given_back = next half_open-Reachable (spawn_failed 2 false [] _ (9 ∷ []))

Reachable-Exact_example : Exact half_open
Reachable-Exact_example = Reachable-Exact half_open half_open-Reachable

-- ===== src/Network/Proxy.antt =====
-- The connection limit of the TCP port proxies in src/network.rs: an atomic counter that the accept
-- loops raise and that the end of every connection lowers.
use zerun.Prelude.{
  ℕ, zero, suc, ◌+◌, ◌-◌, ◌%◌, ◌^◌, Bool, true, false, not, Option, none, some, List, [], ◌∷◌, ◌++◌,
  ◌≡◌, ltb, if◌then◌else◌,
}
pub mod Slots
mod Examples

abbrev pub tcp_proxy_connection_limit : ℕ
tcp_proxy_connection_limit = 64

-- `try_acquire_tcp_proxy_slot`: the counter after a slot was taken.
unfoldable pub try_acquire_tcp_proxy_slot : ℕ → Option ℕ
try_acquire_tcp_proxy_slot active =
    if ltb active tcp_proxy_connection_limit then some (active + 1) else none

-- The drop of a slot: `fetch_sub(1)`, which wraps.
unfoldable pub release_tcp_proxy_slot : ℕ → ℕ
release_tcp_proxy_slot active = (active + (2 ^ 64 - 1)) % 2 ^ 64

-- What an accept loop knows behind `try_acquire_tcp_proxy_slot`: whether it holds a slot, and its flag.
pub record Admission : Type 0 where
  pub holds_slot : Bool
  pub active : ℕ
  pub warned_full : Bool
  pub warns : Bool

-- The first half of a round of `accept_loop`, up to the spawn
unfoldable pub admit : Bool → ℕ → Admission
admit warned_full active = elim (try_acquire_tcp_proxy_slot active) [
  | none ↦ record {
    holds_slot = false;
    active = active;
    warned_full = true;
    warns = not warned_full;
  }
  | some taken ↦ record { holds_slot = true; active = taken; warned_full = false; warns = false }
]

-- The counter; for each accept loop its flag and whether it holds a slot for a connection whose thread
-- is not started yet; and the connections whose threads hold a slot.
pub record Listener : Type 0 where
  pub warned_full : Bool
  pub holds_slot : Bool

pub record Proxies : Type 0 where
  pub active : ℕ
  pub listeners : List Listener
  pub clients : List ℕ

abbrev pub listener_after : Admission → Listener
listener_after a = record { warned_full = a.warned_full; holds_slot = a.holds_slot }

-- The loops of all listeners and the ends of connections, in any order: every step changes the counter
-- once, in one atomic operation, or not at all. A closure that is not started drops its slot.
pub data Step : Proxies → Proxies → Type 0 where
  accept :
      (active : ℕ) (warned_full : Bool) (before after : List Listener) (clients : List ℕ)
      → Step
          (record {
            active = active;
            listeners = before ++ record { warned_full = warned_full; holds_slot = false } ∷ after;
            clients = clients;
          })
          (record {
            active = (admit warned_full active).active;
            listeners = before ++ listener_after (admit warned_full active) ∷ after;
            clients = clients;
          })
  spawn :
      (active client : ℕ) (warned_full : Bool) (before after : List Listener) (clients : List ℕ)
      → Step
          (record {
            active = active;
            listeners = before ++ record { warned_full = warned_full; holds_slot = true } ∷ after;
            clients = clients;
          })
          (record {
            active = active;
            listeners = before ++ record { warned_full = warned_full; holds_slot = false } ∷ after;
            clients = client ∷ clients;
          })
  spawn_failed :
      (active : ℕ) (warned_full : Bool) (before after : List Listener) (clients : List ℕ)
      → Step
          (record {
            active = active;
            listeners = before ++ record { warned_full = warned_full; holds_slot = true } ∷ after;
            clients = clients;
          })
          (record {
            active = release_tcp_proxy_slot active;
            listeners = before ++ record { warned_full = warned_full; holds_slot = false } ∷ after;
            clients = clients;
          })
  finish :
      (active client : ℕ) (listeners : List Listener) (before after : List ℕ)
      → Step
          (record { active = active; listeners = listeners; clients = before ++ client ∷ after })
          (record {
            active = release_tcp_proxy_slot active;
            listeners = listeners;
            clients = before ++ after;
          })

-- `n` accept loops that have not warned yet
abbrev pub started : ℕ → List Listener
started zero = []
started (suc n) = record { warned_full = false; holds_slot = false } ∷ started n

pub data Reachable : Proxies → Type 0 where
  start : (n : ℕ) → Reachable (record { active = 0; listeners = started n; clients = [] })
  next : {s t : Proxies} → Reachable s → Step s t → Reachable t

-- ===== src/Network/Ipam/Examples.antt =====
-- Runs of src/network.rs: addresses allocated from an empty file, reused and released.
use zerun.Prelude.{
  true, none, some, [], ◌∷◌, Text, ok, ◌≡◌, refl, codes, bytes, byte_len, text_eq, if◌then◌else◌,
}
use zerun.Prelude.Dict
use zerun.Prelude.Dict.{Dict, values}
use zerun.Network.Ipam.{
  Ipv4Addr, ipv4, Env, container_ip, validate_ipam, allocate_ip, release_ip, read_ipam, allocate_in,
  choose_ip, write_ipam, validate_entries, validate_ipam_id,
}
use zerun.Network.Ipam.Allocate.{stored, Allocated, allocate_ip-Allocated, release_ip_lem}

abbrev fine : Env
fine = record { lock = true; readable = true; writable = true }

abbrev web : Text
web = codes "0a1b"

abbrev written : Dict Ipv4Addr
written = (web, ipv4 10 88 0 13) ∷ []

container_ip_run : container_ip web ≡ ipv4 10 88 0 13
unfolding container_ip bytes
container_ip_run = refl

-- The file is its own decoding.
allocate_run : allocate_ip (λ m. m) some fine none web ≡ (ok (ipv4 10 88 0 13), some written)
unfolding allocate_ip validate_ipam_id byte_len read_ipam allocate_in Dict.get choose_ip write_ipam
    container_ip Dict.insert bytes
allocate_run = refl

allocate_ip-Allocated_example :
    (m after : Dict Ipv4Addr) × (stored some none ≡ some m)
    × (stored some (some written) ≡ some after)
    × Allocated m after web (ipv4 10 88 0 13)
allocate_ip-Allocated_example =
    allocate_ip-Allocated (λ m. m) some (λ m. refl) fine none (some written) web (ipv4 10 88 0 13)
      allocate_run

written_valid : validate_ipam written ≡ ok tt
unfolding validate_ipam validate_entries validate_ipam_id byte_len
written_valid = refl

release_ip_lem_example :
    (after : Dict Ipv4Addr) × (stored some (release_ip (λ m. m) some fine (some written) web)
      ≡ some after)
    × (validate_ipam after ≡ ok tt)
    × ((j : Text) → Dict.get j after ≡ (if text_eq web j then none else Dict.get j written))
release_ip_lem_example =
    release_ip_lem (λ m. m) some (λ m. refl) fine (some written) web written refl refl refl refl
      written_valid

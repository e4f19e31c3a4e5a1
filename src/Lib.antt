-- ===== src/Lib.antt =====
-- zerun is a daemonless container runtime: a command line (src/main.rs) that pulls, stores and
-- unpacks images (src/image/), builds a container from namespaces, mounts, capabilities, a seccomp
-- filter and a cgroup, connects it to a bridge (src/network.rs), and keeps its state in files. This
-- library models the decisions of that code; the kernel, the file system, serde_json and the
-- registry stand outside and are parameters, or records of what they answer during one call.
--
-- Texts are lists of Unicode code points (Prelude/Strings.antt), with the `str` methods that the
-- sources call; `byte_len` counts UTF-8 bytes as `len` does. Machine integers are natural numbers,
-- with the checked operations of the source written out. Errors carry the reason and not the
-- message. Maps with an order (`BTreeMap`) are association lists that are searched by key;
-- Prelude/Dict.antt has their laws.
--
-- Network/Ipam.antt models the address file of src/network.rs (`container_ip`, `read_ipam`,
-- `validate_ipam`, `write_ipam`, `allocate_ip`, `release_ip`): the file is absent or holds bytes,
-- and `Env` says whether the lock, the read and the write succeed. Proofs: Network/Ipam/Valid.antt
-- on valid maps, Network/Ipam/Allocate.antt on the operations. Network/Proxy.antt models the
-- connection limit of the TCP proxies (`try_acquire_tcp_proxy_slot`, the drop of a slot, the steps
-- of `accept_loop`) as a step relation over the atomic counter; proofs in Network/Proxy/Slots.antt.
--
-- Image/Unpack.antt models the path handling of src/image/unpack.rs (`safe_join`, `safe_join_leaf`,
-- `safe_walk`, `resolve_component`, `normalize_under`, `sanitize_rel_path`). A path is the list of
-- its names, the last name first; the file system is a function from paths to entries that does not
-- change during one call. `safe_walk` recurses on the hops that are left of `MAX_SYMLINK_DEPTH`,
-- which is the bound of the source and no fuel. Proofs: Image/Unpack/Resolved.antt.
--
-- Image/Index.antt models the tag index `images.json` of src/image/store.rs (`records`,
-- `save_records`, `add_index_image`, `find_record`, `tag_record`, `remove_record`). Proofs:
-- Image/Index/Laws.antt on lists of records, Image/Index/Store.antt on the operations.
--
-- Image/Gc.antt models the garbage collection of src/image/store.rs (`keep_manifest_tree`,
-- `gc_with_protected_from`). The traversal takes fuel for its depth; Image/Gc/Marks.antt shows that
-- any positive fuel is enough, since the marking loop inserts the digests of a record before it
-- traverses them. Image/Gc/Sweep.antt is about the two sweeps; a record `Disk` says which entries a
-- directory lists and which removals succeed.
--
-- Units.antt models src/units.rs, byte sizes; proofs in Units/Exact.antt. Cgroup.antt models the
-- limits of src/cgroup.rs (`plan_limit_writes`, `io_max_value`, `swap_limit_for_total`,
-- `parse_cpuset`, `parse_memory_swap`); proofs in Cgroup/Plan.antt and Cgroup/IoMax.antt. The
-- floating-point `cpu_quota` is a parameter.
--
-- Seccomp.antt models the program of src/seccomp.rs (`build_default_program`) for any allowlist,
-- and Seccomp/Filter.antt what the kernel answers under it; the kernel's interpreter is a
-- parameter. Security/Capabilities.antt models the capability options of src/security.rs
-- (`CapabilitySet::resolve`, `from_names`, `names`, `parse_request`), Security/Users.antt the user
-- switch (`resolve_user_spec`, `switch_user`) with the calls that it makes; their proofs are in the
-- files below each.
--
-- Image/Reference.antt models src/image/name.rs (`Reference::parse`, `canonical`, the validations);
-- the loop over a repository component takes its length as fuel, and each round passes a character.
-- Proofs: Image/Reference/Chars.antt, Parts.antt and RoundTrip.antt on reading back, Accepted.antt
-- on what is let through. Image/Platform.antt models the platforms of src/image/manifest.rs
-- (`Platform::parse`, `ImageDoc::select`), with proofs in Image/Platform/Selection.antt.
-- Image/Base64.antt models `base64_encode` and `base64_decode` of src/image/auth.rs, with the round
-- trip in Image/Base64/RoundTrip.antt.
--
-- State.antt models the records of src/state.rs (`load`, `save`, `list`, `resolve`): the files are
-- a function from ids, and a field `rest` stands for the fields that no modelled code reads.
-- Proofs: State/Records.antt and State/Lookup.antt. PsFilter.antt models src/psfilter.rs over these
-- records (`set`, `matches`), with proofs in PsFilter/Matches.antt.
--
-- Rotation.antt models the log rotation of src/lifecycle.rs (`RotatingLog::rotate`) on contents by
-- archive number, with the proof in Rotation/Shift.antt.
--
-- Nftables.antt models the framing of src/nfnetlink.rs (`nla`, `nlmsg`, `parse_attrs`),
-- Nftables/Messages.antt the messages and expressions, Nftables/Records.antt the dump and error
-- parsers, whose loops take one round of fuel for each byte of the buffer
-- (Nftables/Records/Ends.antt shows that this is enough), Nftables/Socket.antt the receive loops on
-- a list of replies, and Nftables/Install.antt `Nftables::install_nat` with every reply of the
-- kernel as a field of `Replies`. What the kernel makes of a granted request is the function
-- `effect` of Nftables/Install/Canonical.antt; the rule that it adds is read off the bytes of the
-- message.
--
-- Clock.antt models the timestamps of src/state.rs (`civil_from_days`, `now_rfc3339_nanos`) on what
-- the clock says. Logs.antt models the timestamps that src/logs.rs reads
-- (`epoch_nanos_from_rfc3339`, `log_timestamp_nanos`), Logs/Select.antt the selection and the
-- display of lines, whose loop takes one round of fuel for each byte, and
-- Logs/Select/Durations.antt the parsers of time bounds. Rotation/Writer.antt models
-- `RotatingLog::open` and `RotatingLog::write_record`, and Attach.antt the frames of
-- src/lifecycle.rs with the loop of the attach command in src/main.rs. Attach/Collector.antt models
-- `collect_timestamped` over any writer. Logs/Captured.antt puts the writer and the reader of a log
-- together.
--
-- Lifecycle.antt models `reconcile_stale`, `settle_exit` and `reclaim_resources` of
-- src/lifecycle.rs with the cgroup paths of src/cgroup.rs; what the host answers is the record
-- `Host`, and what is done to it a list of `Reclaim`. Events.antt models src/events.rs: the list
-- `unsorted` is the one that `diff_events` sorts. Events/Story.antt tells apart from the code what
-- happened to a container, Events/History.antt selects the events of an id, and Events/Order.antt
-- is about the sort.
--
-- Mounts.antt models the options -v and --tmpfs of src/mounts.rs and `safe_target`.
-- `Path::components` is written out as `components`; what `canonicalize` and `metadata` say of a
-- host path is an argument, and so is what `symlink_metadata` says of a path below the rootfs.
--
-- Environ.antt models `build_image_env`, `upsert_env` and `parse_label` of src/main.rs with the
-- tests of src/workload.rs; the environment of the host is an argument. Its proofs are in
-- Environ/Unique.antt.
--
-- Not modelled: system calls, sockets, pseudo terminals, HTTP, tar and JSON codecs, and printing.
pub mod Prelude
pub mod Network
pub mod Image
pub mod Units
pub mod Cgroup
pub mod Seccomp
pub mod Security
pub mod State
pub mod PsFilter
pub mod Rotation
pub mod Nftables
pub mod Clock
pub mod Logs
pub mod Attach
pub mod Lifecycle
pub mod Events
pub mod Mounts
pub mod Environ

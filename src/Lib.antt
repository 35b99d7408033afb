-- ===== src/Lib.antt =====
-- Paws is a proxy client for HarmonyOS. An interface (crates/paws_ui) sends commands to a core
-- (crates/paws_core), which runs an engine and shares with a VPN extension process the ownership
-- of the platform VPN; the extension moves packets between a TUN descriptor and the engine
-- (crates/paws_vpn). This library models the parts of the program whose behaviour is decided by
-- their own code: state machines, journals, tables, caches and codecs.
-- Files and sources:
-- Base: shared names and lemmas: Boolean tests on decidable types, lists and numbers, text as code
--   points with trim and ASCII case, bytes with checked indexing (a panic of the source is
--   `none`), association lists with removal and eviction.
-- VpnOperation (crates/paws_ui/src/vpn_operation.rs): the pending VPN command of the interface,
--   one function for each method of `VpnOperationState`; VpnOperation/Refinement states the moves
--   it may make and VpnOperation/Recovery the stack of recoveries.
-- PlatformOwner (crates/paws_core/src/platform_owner.rs): PlatformOwner/Record has the records and
--   `validate_record`, PlatformOwner/Disk the file under its lock with a fault possible at every
--   call of the file system, PlatformOwner the operations. serde_json is the parameter `Codec`, of
--   which `RoundTrips` is assumed where a record is read back. PlatformOwner/Protocol relates
--   every operation to a specification on owners, PlatformOwner/Races is about histories of two
--   processes, PlatformOwner/Limits about the bound on the size of the file, PlatformOwner/Effects
--   about what an operation leaves on the disk.
-- Packet (crates/paws_vpn/src/packet.rs): parsing, building and checksums of IPv4 UDP packets. The
--   endianness of the target is a parameter because addresses are kept in native order. The loop
--   that folds carries has fuel 4, and four rounds fold any 32-bit sum.
-- DnsTable (crates/paws_vpn/src/dns.rs, `DnsTable`): which hosts resolved to an address, with
--   expiry, bounds and eviction. The clock is an argument. A `HashMap` is an association list in
--   its order of iteration, so that a choice between equals is any that the order allows.
-- SettingsDraft (crates/paws_ui/src/settings_draft.rs): the draft of the settings of a profile,
--   with publications of the runtime and replies to saves as events. SettingsDraft/Edits is about
--   edits that publications must not overwrite, SettingsDraft/Saving about a save in flight.
-- DnsMessage (crates/paws_vpn/src/dns.rs, the codec): DnsMessage/Names reads names, DnsMessage
--   questions and records, DnsMessage/Rewriting changes messages. A panic, a `None` and a value
--   are the three outcomes of Base/Outcome; running out of fuel counts as a panic, so that a proof
--   that there is none is one of termination. The fuel of a name is nine times the length of the
--   message and one, as eight pointers may be followed and a label consumes bytes. Strings are
--   lists of UTF-8 bytes.
-- DnsCache (crates/paws_vpn/src/dns.rs, `DnsResponseCache` and `handle_dns_query`): the cache of
--   responses and the handler that serves a query from it or from the resolver, whose answer is an
--   argument. The clock is a function from the number of a reading.
-- LogRecording (crates/paws_core/src/log_recording.rs): the buffers of log entries. LogRecording
--   has `RuntimeLogBuffer`, where one `sync` takes what the file system answers to it and gives
--   what it appends, whole lines and, where a write fails, a piece of one; LogRecording/Delivery
--   follows the entries from capture to the file. `clear` is one of its events.
--   LogRecording/Recorded has `RecordedLogBuffer`. An entry is its text.
-- ServiceWatch (crates/paws_core/src/service_watch.rs): the loop that moves a selector group to
--   another node. One turn is a function of what it reads on its way, the results of probes and
--   the revisions that a selection finds included; the formatting of a session by `{:?}` is an
--   argument. ServiceWatch/Selection has the candidates of a group, ServiceWatch/Switching says
--   why a turn switches, ServiceWatch/Cooldown how often.
-- Proxies (crates/paws_model/src/lib.rs, `ProxyItem` and `ProxyGroup`) and ProxyGrid
--   (crates/paws_ui/src/proxy_grid.rs): the node that a group leads to through the selections of
--   other groups. The loop has as fuel one more than the groups, as it visits none of them twice.
-- PlatformOwner/Lease and PlatformOwner/Leases (crates/paws_core/src/platform_owner.rs): the lease
--   on one fixed file. The advisory lock is the field `holder`, each open file has a number, and a
--   rewrite may stop at any point. PlatformOwner/Leases/Holding shows what others see of a lease
--   that is held.
-- RequestHistory (crates/paws_core/src/runtime_snapshot.rs, `record_request_history`): the recent
--   requests against the open connections, with the records of crates/paws_model/src/lib.rs.
--   Fields of a connection that are not copied are left out.
-- MemberOrder (crates/paws_core/src/runtime_snapshot.rs, `preserve_proxy_group_member_order`): the
--   members of a refreshed group take the places they had. The map of places is a search for the
--   last member of a name; the stable sort of the standard library is a sort by insertion.
--   MemberOrder/Places says what a place is without the keys of the sort.
-- Routing (crates/paws_core/src/routing.rs, `target_routes_through_proxy` and
--   `ensure_global_proxy_selected`): which targets lead through a proxy and what GLOBAL is set to.
--   The table of outbounds stands for the tunnel, each with what it answers when asked; the effect
--   of `force_set` is an argument. The search takes fuel, a turn more than there are outbounds,
--   which is enough as no outbound is entered twice on one path.
-- Session (crates/paws_core/src/lib.rs): the platform VPN part of `CoreState`. Session has the
--   records; Session/World the world of a handler, that is the session, the owner journal and the
--   published frame, and the `Env` of one call: clocks, the frame of the other process, faults,
--   the answers of the leases (modelled in PlatformOwner/Leases) and what other processes do to
--   the journal before each look at it. Session/Remote is `apply_platform_envelope_locked` and the
--   watchdog, Session/Stops the intents and the fence of a stop of the system, Session/Starts the
--   start of an attempt, Session/Binding how the extension attaches the memory of the interface
--   and takes the attempt, Session/Cleanup its end, Session/Updates what the two sides report
--   about it, Session/Recovery the automatic recovery, and Session/Heartbeats the heartbeats of
--   the extension. Every handler runs under the lock of the state, so that Session/Calls has
--   histories of whole calls. The loop of `recover_platform_vpn_cleanup_after_confirmed_stop`
--   gives up the lock between its turns, and each turn is one call; the source also gives it up
--   inside a turn, before it looks at the journal and the leases, which the model does not.
--   `attach_platform_shared_memory` replaces the memory before it takes the lock of the state, and
--   is one call here. `start_vpn` commits for no attempt and with no check, `commit_start none`:
--   the histories have that call, and a theorem that excludes it says so. Session/Moves lists the
--   changes a handler may make with what it has checked by then, and Session/Leads shows that the
--   handlers make no others, from which the invariants of histories follow. Session/Frames does
--   the same for the frames of the other process, and Session/Grants, Session/Bindings and
--   Session/Departures relate what a handler grants to the journal. The setters without an attempt
--   (set_platform_vpn_starting and its like) are compiled for tests only and left out.
-- In Session the control lane, notifications, the exit location, traffic and logs are left out,
-- and so are the texts that a bind answers. A lease is held or not.
-- Numbers are natural numbers; a word keeps its wrap-around or its saturation where the source has
-- it. Messages of errors and logs are constructors or are left out.
-- Not modelled: sockets, threads, the file system beyond the faults named above, third-party
-- crates, the pages of the interface, the ArkTS shell and the vendored libraries.
mod Base
pub mod VpnOperation
pub mod PlatformOwner
pub mod Packet
pub mod DnsTable
pub mod Session
pub mod SettingsDraft
pub mod DnsMessage
pub mod DnsCache
pub mod LogRecording
pub mod MemberOrder
pub mod Proxies
pub mod ProxyGrid
pub mod RequestHistory
pub mod Routing
pub mod ServiceWatch

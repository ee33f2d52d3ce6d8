-- ===== src/Lib.antt =====
-- Proxmox fleet orchestration (proxmox_fleet/): a model of the parts that decide, and what holds
-- of them.
--
-- The program updates containers, virtual machines, remote hosts and the Proxmox nodes themselves,
-- and archives their logs. It consists of per-host flows (proxmox_fleet/flows), which reach the
-- outside through an executor and small HTTP helpers, of the pure decision modules that the flows
-- ask (changes.py, status.py), and of the log housekeeping, whose stream module cuts decoded logs
-- into bounded fragments.
--
-- Which file models what:
--   Prelude and its children: lists, texts as lists of code points, Boolean tests.
--   Stream.Utf8, Stream.Lines, Stream.Fragments: proxmox_fleet/housekeeping_stream.py, that is
--     `_utf8_safe_end`, `_LineBuffer` and `iter_log_fragments`. The decoded stream is the list of
--     its bytes behind the reader's position; `buf`, `eof` and `rest` are the buffer's state. The
--     generator is its trace: the fragments, then how it ended. JSON encoding and the
--     floating-point guess of a smaller payload are the parameter `Encoder`.
--   Changes: proxmox_fleet/changes.py. A text is the list of its code points.
--   Status: proxmox_fleet/status.py.
--   Flow: the shared state of the flows: exceptions, `PrimitiveResult` of proxmox_fleet/runner.py,
--     and the calls to the outside. The outside is an `Env` that answers each call in view of what
--     happened before; the log of a `World` keeps every call with its answer, the newest first.
--     Flow.Triples has a rule for each way to build an action.
--   Flow.Packages: proxmox_fleet/flows/_pkg.py and the steps that the guest flows share.
--   Orchestration: proxmox_fleet/orchestration.py (`run_serial`, `retry`), `poll_until` of
--     proxmox_fleet/http.py, `snapshot_with_retry` of proxmox_fleet/executor.py. A delay is a whole
--     number of seconds.
--   Vm: `run_vm_update` of proxmox_fleet/flows/vm.py. Its local variables and its outcome are the
--     `VmVars` of the world. A well-formed answer of the health service is assumed, the list of a
--     monitor's beats.
--   Vm.Discipline: what a VM flow may do, as a test on the log, independent of the flow's code.
--   Remote: `run_remote_update` of proxmox_fleet/flows/remote.py, over the same package steps;
--     Flow.Upgrading shows once for both flows what the steps keep.
--   Node: `run_node_update` and `run_manager_update` of proxmox_fleet/flows/node.py, with
--     `classify_post_upgrade` in Node.Diagnostics. What a node flow may do is in Node.Discipline. The
--     regular expression for an installed DKMS module is written out in Node.Dkms. A record keeps no
--     `checks`.
--   Records: proxmox_fleet/models/state.py. Cluster: proxmox_fleet/cluster.py.
--   Driver: proxmox_fleet/driver.py: the waves of a phase with their canary gate and soak.
--     Driver.Phases has `run_vm_phase` and `run_remote_phase` over the flows of their hosts,
--     Driver.Nodes `run_node_phase`, Driver.Locating where a VM lies. Each host has an outside of its own, in view of the hosts of
--     the earlier waves; hosts of one wave do not see one another.
--   Sources.Provenance, Sources.Coverage: proxmox_fleet/housekeeping_sources.py. A JSON object is the
--     list of its keys with their values; the two regular expressions for archive names are the
--     parameter `ArchiveNames`.
--   Retention: proxmox_fleet/housekeeping_retention.py, the plan of deletions (`plan_prune_candidates`,
--     with Retention.Wires) and what the helper's answer makes of it (`_resolve_outcomes`, in
--     Retention.Outcomes); the updates of the intents in the store are a list.
--   Alerts: proxmox_fleet/housekeeping_alerts.py, with its state file as a value.
--   Deps: proxmox_fleet/deps.py. Window: proxmox_fleet/window.py, with the clock of a time zone as a
--     parameter.
--
-- Fuel: the loop over fragments runs on fuel one above the bytes left, each fragment takes at
-- least one byte; the loop that shortens a payload runs on the payload's length, which each round
-- decreases.
--
-- Not modelled: the transport (ansible-runner, SSH, urllib), file I/O, the web interface, parsers
-- of command output, and the regular expressions that count packages.
mod Prelude
pub mod Stream
pub mod Driver
pub mod Flow
pub mod Orchestration
pub mod Records
pub mod Vm
pub mod Remote
pub mod Node
pub mod Window
pub mod Cluster
pub mod Deps
pub mod Alerts
pub mod Sources
pub mod Retention
pub mod Changes
pub mod Status

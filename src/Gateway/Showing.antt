-- ===== src/Gateway/Showing.antt =====
-- That the snapshots of Snapshots keep the mailbox's accounting and the tables.
use adapter_forge_gateway.Prelude.{ℕ, String}
use adapter_forge_gateway.Raise.Ensures.{Keeps, keeps_rules}
use adapter_forge_gateway.Gateway.State.{Ambient}
use adapter_forge_gateway.Gateway.Slots.{part_rules, Holds}
use adapter_forge_gateway.Gateway.Removing.{finish_unclaimed_for_removed-Holds}
use adapter_forge_gateway.Gateway.Snapshots.{
  current_directory, endpoint_registrations, discovery_snapshot, tool_spec_snapshot,
  action_invocation_snapshot, action_result_snapshot,
}

module _ {capacity n : ℕ} where
  current_directory-Holds :
      (w : Ambient) (now : ℕ) → Keeps (Holds capacity n) (current_directory w now)
  unfolding current_directory
  current_directory-Holds w now = search (part_rules, finish_unclaimed_for_removed-Holds) depth 12

  pub endpoint_registrations-Holds :
      (w : Ambient) (now : ℕ) → Keeps (Holds capacity n) (endpoint_registrations w now)
  unfolding endpoint_registrations
  endpoint_registrations-Holds w now = search (keeps_rules, current_directory-Holds) depth 12

  pub discovery_snapshot-Holds :
      (w : Ambient) (now : ℕ) → Keeps (Holds capacity n) (discovery_snapshot w now)
  unfolding discovery_snapshot
  discovery_snapshot-Holds w now = search (keeps_rules, current_directory-Holds) depth 12

  pub tool_spec_snapshot-Holds :
      (w : Ambient) (now : ℕ) → Keeps (Holds capacity n) (tool_spec_snapshot w now)
  unfolding tool_spec_snapshot
  tool_spec_snapshot-Holds w now = search (keeps_rules, current_directory-Holds) depth 12

  pub action_invocation_snapshot-Holds :
      (invocation_id : String) (now : ℕ)
      → Keeps (Holds capacity n) (action_invocation_snapshot invocation_id now)
  unfolding action_invocation_snapshot
  action_invocation_snapshot-Holds invocation_id now = search part_rules depth 12

  pub action_result_snapshot-Holds :
      (invocation_id : String) (now : ℕ)
      → Keeps (Holds capacity n) (action_result_snapshot invocation_id now)
  unfolding action_result_snapshot
  action_result_snapshot-Holds invocation_id now = search part_rules depth 12

-- ===== src/Workspace/Limit.antt =====
-- The guards of `handleMcpCall` in src/buyer/workspace.ts, and how much a session transfers.
use j41_sovagent_sdk.Prelude.{
  ℕ, ◌≤◌, ◌≡◌, refl, false, not, ◌&&◌, ◌⊎◌, arith, Str, ltb, Bool-cases, inl, inr,
}
use j41_sovagent_sdk.Workspace.{
  Workspace, Config, Call, Block, blocked, max_session_transfer, execute, handle_mcp_call, rel_path,
  is_excluded, is_write, no_write_permission, excluded, limit_exceeded, rejected,
}

pub le_of_ltb : (a b : ℕ) → ltb a b ≡ false → b ≤ a
le_of_ltb a b h = ground arith

module _ (encode decode : Str → Str) where
  -- A call that is not blocked by the guards passed all of them.
  pub record IsAdmitted (c : Config) (call : Call) (w : Workspace) : Type 0 where
    pub permitted : (is_write call.tool && not c.permissions.write) ≡ false
    pub shown : is_excluded (rel_path call) c.exclusions ≡ false
    pub within : w.transferred ≤ max_session_transfer
    pub executed : handle_mcp_call encode decode c call w ≡ execute encode decode c call call.tool w

  pub handle_mcp_call-cases :
      (c : Config) (call : Call) (w : Workspace)
      → ((b : Block) × (handle_mcp_call encode decode c call w ≡ (w, blocked b)))
        ⊎ IsAdmitted c call w
  unfolding handle_mcp_call
  handle_mcp_call-cases c call w =
      elim (Bool-cases (is_write call.tool && not c.permissions.write)) [
        | inl e ↦ inl (no_write_permission, rw e refl)
        | inr e1 ↦ elim (Bool-cases (is_excluded (rel_path call) c.exclusions)) [
          | inl e ↦ inl (excluded, rw (e1, e) refl)
          | inr e2 ↦ elim (Bool-cases (ltb max_session_transfer w.transferred)) [
            | inl e ↦ inl (limit_exceeded, rw (e1, e2, e) refl)
            | inr e3 ↦
                elim (Bool-cases (
                  is_write call.tool
                  && not c.auto_approve_writes
                  && c.has_on_write
                  && not call.approved)) [
                    | inl e ↦ inl (rejected, rw (e1, e2, e3, e) refl)
                    | inr e4 ↦ inr (record {
                      permitted = e1;
                      shown = e2;
                      within = le_of_ltb max_session_transfer w.transferred e3;
                      executed = rw (e1, e2, e3, e4) refl;
                    })
                  ]
          ]
        ]
      ]

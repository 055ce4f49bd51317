-- ===== src/Workspace/Bypass.antt =====
-- src/buyer/workspace.ts: `isExcluded` sees the path as it was written, `resolveSafe` what it means.
use j41_sovagent_sdk.Prelude.{
  ℕ, ◌≡◌, refl, true, false, List, ◌∷◌, some, Str, length, ltb, any, take, ◌==◌, str_discrete,
  str_member,
}
use j41_sovagent_sdk.Prelude.Maps.{get}
use j41_sovagent_sdk.Workspace.{
  Workspace, Config, Call, content, blocked, excluded, read_file, max_file_size,
  max_session_transfer, handle_mcp_call, resolve_safe, path_text, is_excluded, walk, split_at,
  is_slash, count_read,
}

abbrev pub dot_slash : Str → Str
dot_slash e = b'.' ∷ b'/' ∷ e

-- To resolve a path, a dot in front of it makes no difference.
resolve_safe-dot_slash :
    (root : List Str) (c : ℕ) (cs : Str)
    → is_slash c ≡ false
    → resolve_safe root (dot_slash (c ∷ cs)) ≡ resolve_safe root (c ∷ cs)
unfolding resolve_safe split_at walk str_member str_discrete
resolve_safe-dot_slash root c cs h = rw h refl

module _ (encode decode : Str → Str) where
  -- A file that can be read, which the exclusions name by the path `e`, is blocked when a call reads
  -- `e` and given out when a call reads `./e`, unless the exclusions name that path too.
  pub handle_mcp_call-dot_slash :
      (c : Config) (call : Call) (w : Workspace) (e0 : ℕ) (e : Str) (at : List Str) (bytes : Str)
      → call.tool ≡ read_file
      → is_slash e0 ≡ false
      → is_excluded (e0 ∷ e) c.exclusions ≡ true
      → is_excluded (dot_slash (e0 ∷ e)) c.exclusions ≡ false
      → resolve_safe c.root (e0 ∷ e) ≡ some at
      → get str_discrete (path_text at) w.files ≡ some bytes
      → ltb max_file_size (length bytes) ≡ false
      → any (λ b. b == 0) (take 8192 bytes) ≡ false
      → ltb max_session_transfer w.transferred ≡ false
      → (handle_mcp_call encode decode c (record call { path = e0 ∷ e }) w ≡ (w, blocked excluded))
        × (handle_mcp_call encode decode c (record call { path = dot_slash (e0 ∷ e) }) w
            ≡ (count_read (length bytes) w, content (decode bytes)))
  unfolding handle_mcp_call
  handle_mcp_call-dot_slash c call w e0 e at bytes t s x y r f small text within = (
    rw (t, x) refl,
    rw (t, y, within, resolve_safe-dot_slash c.root e0 e s, r, f, small, text) refl,
  )

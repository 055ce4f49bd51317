-- ===== src/Workspace/Disk.antt =====
-- Which files the calls of src/buyer/workspace.ts reach.
use j41_sovagent_sdk.Prelude.{Bool, ◌||◌, List, ◌++◌, Str, codes, ◌===◌, starts_with}
use j41_sovagent_sdk.Workspace.{Workspace, path_text}

-- A path in the project directory, or the directory itself.
abbrev pub contains : List Str → Str → Bool
contains root q = starts_with q (path_text root ++ codes "/") || q === path_text root

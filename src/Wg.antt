-- ===== src/Wg.antt =====
-- wg/wg.go: the service that runs WireGuard's tool, and cmd/cmd.go, by which it runs it. The reading of
-- its output is in Dump, the commands that change peers are in Puts.
pub mod Dump
pub mod Puts
pub mod Laws
mod Tests
use tanlnode.Base.{
  ℕ, zero, suc, ◌+◌, ◌%◌, ◌^◌, Bool, true, false, not, Option, none, some, List, [], ◌∷◌, ◌++◌, map,
  ltb, ◌==◌, if◌then◌else◌, ◌⊎◌, inl, inr,
}
use tanlnode.Sqlgen.{Text, Int64}
use tanlnode.PeerStats.{is_empty}

-- "nsenter", "--net=" and "--".
abbrev nsenter_word : Text
nsenter_word = 110 ∷ 115 ∷ 101 ∷ 110 ∷ 116 ∷ 101 ∷ 114 ∷ []

abbrev net_option : Text
net_option = 45 ∷ 45 ∷ 110 ∷ 101 ∷ 116 ∷ 61 ∷ []

abbrev dashes : Text
dashes = 45 ∷ 45 ∷ []

-- A program with its arguments.
abbrev pub Command : Type 0
Command = Text × List Text

-- What `Exec` of cmd.go runs.
abbrev pub exec_command : Text → Text → List Text → Command
exec_command net_ns_path cmd args =
    if is_empty net_ns_path
    then (cmd, args)
    else (nsenter_word, (net_option ++ net_ns_path) ∷ dashes ∷ cmd ∷ args)

-- `Service`
pub record Service : Type 0 where
  pub ifce : Text
  pub wg_exec_path : Text
  pub wg_net_ns_path : Text

-- `execWGCmd`; `run` is what running a program does: its output, or an error.
abbrev pub exec_wg_cmd : (Command → Option Text) → Service → List Text → Option Text
exec_wg_cmd run s args = run (exec_command s.wg_net_ns_path s.wg_exec_path args)

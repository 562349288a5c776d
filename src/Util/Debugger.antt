-- ===== src/Util/Debugger.antt =====
-- src/util/MultiprocessDebugHelper.cpp: a debugger is attached to the program, and killed with it.
-- The shell, the number of the process and what the commands write are parameters. Waiting a second
-- is left out.
use distributed_monitor.Base.{
  ℕ, ◌^◌, ◌<◌, ◌≡◌, refl, Bool, true, false, List, [], ◌∷◌, ◌++◌, Option, none, some, Bytes,
}
use distributed_monitor.Util.Print.{to_string}
use distributed_monitor.Util.Command.{
  Stoi, value, invalid_argument, out_of_range, exec_and_capture_pid,
}
use distributed_monitor.Util.Command.Laws.{exec_and_capture_pid-to_string}

pub data Signal : Type 0 where
  sigint sigabrt sigterm sigtstp : Signal

-- The static member, an `int` by its sign and its size, and where `cleanup` has been registered.
-- As the argument of `kill`, 0 means all processes of the caller's group.
pub record Helper : Type 0 where
  pub gdb_server_pid : Bool × ℕ
  pub handled : List Signal
  pub at_exit : Bool

abbrev pub unset : Helper
unset = record { gdb_server_pid = (false, 0); handled = []; at_exit = false }

-- "( gdbserver --attach localhost:", " " and " & echo $! )"
abbrev pub attach_label : Bytes
attach_label =
    40 ∷ 32 ∷ 103 ∷ 100 ∷ 98 ∷ 115 ∷ 101 ∷ 114 ∷ 118 ∷ 101 ∷ 114 ∷ 32 ∷ 45 ∷ 45 ∷ 97 ∷ 116 ∷ 116
    ∷ 97 ∷ 99 ∷ 104 ∷ 32 ∷ 108 ∷ 111 ∷ 99 ∷ 97 ∷ 108 ∷ 104 ∷ 111 ∷ 115 ∷ 116 ∷ 58 ∷ []

abbrev pub echo_label : Bytes
echo_label = 32 ∷ 38 ∷ 32 ∷ 101 ∷ 99 ∷ 104 ∷ 111 ∷ 32 ∷ 36 ∷ 33 ∷ 32 ∷ 41 ∷ []

unfoldable pub gdb_server_command : ℕ → ℕ → Bytes
gdb_server_command port pid =
    attach_label ++ (to_string port ++ (32 ∷ (to_string pid ++ echo_label)))

-- The calls of `signal` and `std::atexit`.
unfoldable pub register_cleanup : Helper → Helper
register_cleanup h = record h {
  handled = sigint ∷ sigabrt ∷ sigterm ∷ sigtstp ∷ h.handled;
  at_exit = true;
}

-- An exception leaves the member as it is.
abbrev pub attached : Helper → Option Stoi → Helper × Option (Bool × ℕ)
attached h none = (h, none)
attached h (some invalid_argument) = (h, none)
attached h (some out_of_range) = (h, none)
attached h (some (value negative size)) =
    (record h { gdb_server_pid = (negative, size) }, some (negative, size))

-- `setup` on the given port, in the process `me`: the member afterwards, and what is returned, with
-- `none` for an exception.
unfoldable pub setup : (Bytes → Option Bytes) → ℕ → ℕ → Helper → Helper × Option (Bool × ℕ)
unfolding gdb_server_command register_cleanup exec_and_capture_pid
setup popen me port h =
    attached (register_cleanup h) (exec_and_capture_pid popen (gdb_server_command port me))

-- Whom `cleanup` sends SIGKILL.
unfoldable pub cleanup : Helper → Bool × ℕ
cleanup h = h.gdb_server_pid

-- The debugger that the shell has started is the process that is killed at the end.
pub setup-cleanup :
    (popen : Bytes → Option Bytes) (me port pid : ℕ) (rest : Bytes)
    → pid < 2 ^ 31
    → popen (gdb_server_command port me) ≡ some (to_string pid ++ 10 ∷ rest)
    → ((setup popen me port unset).1 ≡ some (false, pid))
      × (cleanup (setup popen me port unset).0 ≡ (false, pid))
unfolding setup cleanup register_cleanup
setup-cleanup popen me port pid rest lt e =
    let got = exec_and_capture_pid-to_string popen (gdb_server_command port me) rest pid lt e in
    rw (setup, got) (refl, refl)

-- If no debugger could be started, the cleanup that has been registered sends SIGKILL to all
-- processes of the group.
pub setup-group :
    (popen : Bytes → Option Bytes) (me port : ℕ)
    → (setup popen me port unset).1 ≡ none
    → ((setup popen me port unset).0.at_exit ≡ true)
      × (cleanup (setup popen me port unset).0 ≡ (false, 0))
unfolding setup cleanup register_cleanup
setup-group popen me port h = unchanged (exec_and_capture_pid popen (gdb_server_command port me)) h
  where
    unchanged :
        (o : Option Stoi)
        → (attached (register_cleanup unset) o).1 ≡ none
        → ((attached (register_cleanup unset) o).0.at_exit ≡ true)
          × (cleanup (attached (register_cleanup unset) o).0 ≡ (false, 0))
    unchanged none h = (refl, refl)
    unchanged (some invalid_argument) h = (refl, refl)
    unchanged (some out_of_range) h = (refl, refl)
    unchanged (some (value negative size)) h = absurd (cc)

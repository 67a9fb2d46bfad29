-- ===== src/Install.antt =====
-- The installation at the end of `ensure_binary` of conduit/_provision.py, over files and the calls on
-- them, which may fail.
pub mod Moments
pub mod Changes
pub mod Race
pub mod Together
pub mod Atomic
use conduit_client_python.Prelude.{
  String, Bool, true, false, Option, none, some, List, [], ◌∷◌, ◌++◌, ◌<>◌, ◌==◌, ◌&&◌, or_text,
  or_default, removeprefix, lower, if◌then◌else◌,
}
use conduit_client_python.Prelude.Split.{base_name}
use conduit_client_python.Errors.{
  Exception, conduit, os_error, client_error, Outcome, ok, raised, ◌>>=◌ as outcome_bind,
}
use conduit_client_python.Exec.{Exec, pure, raise, lift, ◌>>=◌, ◌>>◌}
use conduit_client_python.Checksums.{Bytes, Codec, verify_checksum}

-- A file: its content, and whether it is executable.
pub record File : Type 0 where
  pub content : Bytes
  pub executable : Bool

-- The calls on the file system that may raise an `OSError`.
pub data FsCall : Type 0 where
  make_parent make_temp write_temp set_mode replace_target unlink_temp : FsCall

-- Which of them fail, and what a write has put into the temporary file when it fails, or midway.
pub record Faults : Type 0 where
  pub fails : FsCall → Option String
  pub partial : Bytes
  -- the name that `mkstemp` chooses
  pub temp : String

pub record Host : Type 0 where
  pub file : String → Option File
  pub fetched : List String
  -- the files as they were at each earlier moment, the latest first; a record for the theorems
  pub past : List (String → Option File)

-- Other files, in one step.
abbrev pub change : (String → Option File) → Host → Host
change files h = record h { file = files; past = h.file ∷ h.past }

abbrev pub set_file : String → Option File → Host → Host
set_file path f h = change (λ p. if p == path then f else h.file p) h

-- `from.replace(to)`, which is atomic.
abbrev pub move : String → String → Host → Host
move from to h =
    change (λ p. if p == from then none else if p == to then h.file from else h.file p) h

-- A call that changes the files in one way if it fails, and in another if it does not.
abbrev pub attempt : Faults → FsCall → (Host → Host) → (Host → Host) → Exec Host (Unit {0})
attempt faults c failed done h = elim (faults.fails c) [
  | none ↦ (ok tt, done h)
  | some text ↦ (raised (os_error text), failed h)
]

abbrev unchanged : Host → Host
unchanged h = h

-- `try: m finally: n`: what `n` raises takes the place of the result.
abbrev pub override : Outcome (Unit {0}) → Outcome (Unit {0}) → Outcome (Unit {0})
override r (ok _) = r
override r (raised x) = raised x

abbrev pub finally : Exec Host (Unit {0}) → Exec Host (Unit {0}) → Exec Host (Unit {0})
finally m n h = let (r, h') = m h in let (r', h'') = n h' in (override r r', h'')

-- The body of the last `try` of `ensure_binary`.
unfoldable pub fill_and_move : Faults → Bytes → String → Exec Host (Unit {0})
fill_and_move faults binary target =
    attempt faults write_temp
      (set_file faults.temp (some (record { content = faults.partial; executable = false })))
      (λ h.
        set_file faults.temp (some (record { content = binary; executable = false }))
          (set_file faults.temp (some (record { content = faults.partial; executable = false })) h))
    >> (attempt faults set_mode unchanged
          (set_file faults.temp (some (record { content = binary; executable = true })))
        >> attempt faults replace_target unchanged (move faults.temp target))

-- From `target.parent.mkdir` to the end of `ensure_binary`.
unfoldable pub install : Faults → Bytes → String → Exec Host (Unit {0})
unfolding fill_and_move
install faults binary target =
    attempt faults make_parent unchanged unchanged
    >> (attempt faults make_temp unchanged
          (set_file faults.temp (some (record { content = []; executable = false })))
        >> finally (fill_and_move faults binary target)
            (attempt faults unlink_temp unchanged (set_file faults.temp none)))

-- ===== src/Process/Options.antt =====
-- src/include/uvcc/handle-misc.hpp, the class process: the options that are set before a child is
-- started. The flags are the bits of `uv_process_flags`; texts are numbers, 0 for a null pointer; a
-- user or a group is a number of 32 bits.
use uvcc.Prelude.{
  ℕ, ◌≡◌, refl, ◌∙◌, Bool, true, false, not, ◌||◌, List, [], ◌∷◌, Option, none, some, ◌==◌,
  if◌then◌else◌, arith,
}

pub record Flags : Type 0 where
  pub setuid : Bool
  pub setgid : Bool
  pub windows_verbatim_arguments : Bool
  pub detached : Bool
  pub windows_hide : Bool

-- `uv_process_options_t`, but for the callback and the standard streams.
pub record Options : Type 0 where
  pub file : ℕ
  pub args : ℕ
  pub env : ℕ
  pub cwd : ℕ
  pub uid : ℕ
  pub gid : ℕ
  pub flags : Flags

abbrev pub no_flags : Flags
no_flags = record {
  setuid = false;
  setgid = false;
  windows_verbatim_arguments = false;
  detached = false;
  windows_hide = false;
}

abbrev pub fresh_options : Options
fresh_options = record { file = 0; args = 0; env = 0; cwd = 0; uid = 0; gid = 0; flags = no_flags }

-- -1 as a number of 32 bits.
abbrev pub no_id : ℕ
no_id = 4294967295

unfoldable pub set_environment : ℕ → Options → Options
set_environment env o = record o { env = env }

unfoldable pub set_working_dir : ℕ → Options → Options
set_working_dir cwd o = record o { cwd = cwd }

unfoldable pub set_uid : ℕ → Options → Options
set_uid uid o =
    if uid == no_id
    then record o { uid = uid; flags = record o.flags { setuid = false } }
    else record o { uid = uid; flags = record o.flags { setuid = true } }

unfoldable pub set_gid : ℕ → Options → Options
set_gid gid o =
    if gid == no_id
    then record o { gid = gid; flags = record o.flags { setgid = false } }
    else record o { gid = gid; flags = record o.flags { setgid = true } }

-- `flags |= _flags`
abbrev pub or_flags : Flags → Flags → Flags
or_flags f g = record {
  setuid = f.setuid || g.setuid;
  setgid = f.setgid || g.setgid;
  windows_verbatim_arguments = f.windows_verbatim_arguments || g.windows_verbatim_arguments;
  detached = f.detached || g.detached;
  windows_hide = f.windows_hide || g.windows_hide;
}

-- What `spawn` sets.
unfoldable pub set_command : (file args : ℕ) → Flags → Options → Options
set_command file args flags o = record o {
  file = file;
  args = args;
  flags = or_flags o.flags flags;
}

-- The calls that prepare a child.
pub data Setting : Type 0 where
  environment working_dir user group : ℕ → Setting

pub set_option : Setting → Options → Options
set_option (environment x) = set_environment x
set_option (working_dir x) = set_working_dir x
set_option (user x) = set_uid x
set_option (group x) = set_gid x

pub set_options : List Setting → Options → Options
set_options [] o = o
set_options (s ∷ ss) o = set_options ss (set_option s o)

-- What was set last, where anything was.
module _ (ask : Setting → Option ℕ) where
  abbrev pub latest : Option ℕ → Option ℕ → Option ℕ
  latest (some x) y = some x
  latest none y = y

  pub last_of : List Setting → Option ℕ
  last_of [] = none
  last_of (s ∷ ss) = latest (last_of ss) (ask s)

abbrev pub of_environment : Setting → Option ℕ
of_environment (environment x) = some x
of_environment (working_dir x) = none
of_environment (user x) = none
of_environment (group x) = none

abbrev pub of_working_dir : Setting → Option ℕ
of_working_dir (working_dir x) = some x
of_working_dir (environment x) = none
of_working_dir (user x) = none
of_working_dir (group x) = none

abbrev pub of_user : Setting → Option ℕ
of_user (user x) = some x
of_user (environment x) = none
of_user (working_dir x) = none
of_user (group x) = none

abbrev pub of_group : Setting → Option ℕ
of_group (group x) = some x
of_group (environment x) = none
of_group (working_dir x) = none
of_group (user x) = none

abbrev pub or_else : Option ℕ → ℕ → ℕ
or_else none y = y
or_else (some x) y = x

-- The flag for a user or a group: cleared by -1, set by any other.
abbrev pub flag_of : Option ℕ → Bool → Bool
flag_of none b = b
flag_of (some x) b = not (x == no_id)

-- The options by the last setting of each kind.
abbrev pub summary : List Setting → Options → Options
summary ss o = record o {
  env = or_else (last_of of_environment ss) o.env;
  cwd = or_else (last_of of_working_dir ss) o.cwd;
  uid = or_else (last_of of_user ss) o.uid;
  gid = or_else (last_of of_group ss) o.gid;
  flags = record o.flags {
    setuid = flag_of (last_of of_user ss) o.flags.setuid;
    setgid = flag_of (last_of of_group ss) o.flags.setgid;
  };
}

summary-set :
    (s : Setting) (ss : List Setting) (o : Options)
    → summary ss (set_option s o) ≡ summary (s ∷ ss) o
unfolding set_option set_environment set_working_dir set_uid set_gid last_of
summary-set (environment x) ss o = ground arith
summary-set (working_dir x) ss o = ground arith
summary-set (user x) ss o = ground arith
summary-set (group x) ss o = ground arith

-- Whatever is set, in whatever order, the options are those that the last setting of each kind gives:
-- settings of different kinds do not touch each other, and the flag that asks libuv to change the user
-- or the group is set exactly where the last one given is not -1.
pub set_options-summary : (ss : List Setting) (o : Options) → set_options ss o ≡ summary ss o
unfolding set_options last_of
set_options-summary [] o = refl
set_options-summary (s ∷ ss) o = set_options-summary ss (set_option s o) ∙ summary-set s ss o

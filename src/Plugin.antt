-- ===== src/Plugin.antt =====
-- plugin.c, `discard_plugin` of aping.c, and plugin/loader/loader.c: the children that run plugins,
-- and the names that the loader opens. `PLUGIN_PATH` is made by the build, and the result of `fork` and
-- what a buffer holds before its first use are arguments. `execve` and `kill` are taken to succeed.
pub mod Names
pub mod Children
use aping.Base.{
  ℕ, zero, suc, ◌+◌, ◌-◌, List, [], ◌∷◌, ◌++◌, Bool, true, false, not, ◌&&◌, ◌||◌, Option, none,
  some, take, drop, length, set, map, min, ltb, ◌==◌, if◌then◌else◌,
}
use aping.Base.Text.{Text, text_eq}
use aping.Base.Outcome.{Run, ok, fatal, Fault, ◌>>=◌, ◌>>◌}
use aping.StrCat.{strlcat}

-- `sizeof (loader)`, and of the other buffers.
abbrev path_size : ℕ
path_size = 80

abbrev max_child : ℕ
max_child = 32

-- The text at the start of a buffer.
unfoldable pub text_of : List ℕ → Text
text_of [] = []
text_of (c ∷ cs) = let rest = text_of cs in if c == 0 then [] else c ∷ rest

-- `strlcat (buf, s, sizeof (buf))` for each text in turn.
unfoldable pub append_all : List ℕ → List Text → Run (List ℕ)
append_all buf [] = ok buf
append_all buf (s ∷ ss) = strlcat buf s path_size >>= λ r. append_all r.0 ss

-- A buffer that holds nothing, `so[0] = '\0'`, and one that holds `_`.
abbrev pub emptied : List ℕ → List ℕ
emptied buf = set buf 0 0

abbrev pub underscored : List ℕ → List ℕ
underscored buf = set (set buf 0 b'_') 1 0

abbrev pub slash : Text
slash = b'/' ∷ []

abbrev pub loader_text : Text
loader_text = b'l' ∷ b'o' ∷ b'a' ∷ b'd' ∷ b'e' ∷ b'r' ∷ []

abbrev pub dot_so : Text
dot_so = b'.' ∷ b's' ∷ b'o' ∷ []

abbrev pub init_suffix : Text
init_suffix = b'_' ∷ b'i' ∷ b'n' ∷ b'i' ∷ b't' ∷ []

abbrev pub exit_suffix : Text
exit_suffix = b'_' ∷ b'e' ∷ b'x' ∷ b'i' ∷ b't' ∷ []

unfoldable pub loader_path : Text → List ℕ → Run Text
loader_path path buf =
    append_all (emptied buf) (path ∷ slash ∷ loader_text ∷ []) >>= λ b. ok (text_of b)

-- What `fork` returns: an error, 0 in the child, or the child's id.
pub data Forked : Type 0 where
  fork_error child : Forked
  parent : ℕ → Forked

-- The process goes on with these children, or becomes another program with these arguments.
pub data Process : Type 0 where
  running : List ℕ → Process
  image : Text → List Text → Process

-- The switch of `plugin_init`: `pd_plugin` up to `pd_pindex`; a child too many is killed.
unfoldable pub forked_process : Text → Text → List ℕ → Forked → Run Process
forked_process loader name plugins fork_error = fatal Fault.fork_failed
forked_process loader name plugins child = ok (image loader (loader_text ∷ (b'r' ∷ []) ∷ name ∷ []))
forked_process loader name plugins (parent pid) =
    if ltb (length plugins) max_child
    then ok (running (plugins ++ (pid ∷ [])))
    else fatal Fault.too_many_plugins

unfoldable pub plugin_init : Text → List ℕ → Text → Forked → List ℕ → Run Process
unfolding forked_process
plugin_init path buf name forked plugins = do
  loader ← loader_path path buf
  forked_process loader name plugins forked

-- The processes that `discard_plugin` sends `SIGUSR1`.
unfoldable pub discard_plugin : List ℕ → List ℕ
discard_plugin plugins = take (min (length plugins) max_child) plugins

unfoldable pub starts_with : Text → Text → Bool
starts_with [] t = true
starts_with (c ∷ cs) [] = false
starts_with (c ∷ cs) (d ∷ ds) = (c == d) && starts_with cs ds

-- What stands before the place that `strstr` finds.
unfoldable pub before : Text → Text → Option Text
unfolding starts_with
before what [] = none
before what (c ∷ cs) =
    let rest = before what cs in
    if starts_with what (c ∷ cs) then some [] else elim rest [ none ↦ none | some t ↦ some (c ∷ t) ]

abbrev is_dots : Text → Bool
is_dots d = text_eq (b'.' ∷ []) d || text_eq (b'.' ∷ b'.' ∷ []) d

-- The name of the plugin that a file of the directory holds.
unfoldable plugin_of_file : Text → Option Text
unfolding before
plugin_of_file d = if is_dots d then none else before dot_so d

-- The loop over the directory; `forks` are the results of `fork`, in order.
unfoldable pub list_plugins : Text → List Text → List Forked → Run Process
unfolding plugin_of_file
list_plugins loader [] forks = fatal Fault.exited
list_plugins loader (d ∷ ds) forks =
    let skip = list_plugins loader ds forks in
    let next : List Forked → Run Process = λ fs. list_plugins loader ds fs in
    elim (plugin_of_file d) [
      | none ↦ skip
      | some name ↦ elim forks [
        | [] ↦ fatal Fault.fork_failed
        | f ∷ fs ↦ elim f [
          | fork_error ↦ fatal Fault.fork_failed
          | child ↦ ok (image loader (loader_text ∷ (b'i' ∷ []) ∷ name ∷ []))
          | parent pid ↦ next fs
        ]
      ]
    ]

-- `none` for the directory where `opendir` fails.
unfoldable pub plugin_ls : Text → List ℕ → Option (List Text) → List Forked → Run Process
plugin_ls path buf dir forks = do
  loader ← loader_path path buf
  elim dir [ none ↦ fatal Fault.no_directory | some ds ↦ list_plugins loader ds forks ]

-- What the loader opens and looks up, and what it does then.
pub data Action : Type 0 where
  run_plugin show_info : Action

pub record Loaded : Type 0 where
  pub object : Text
  pub init : Text
  pub exit : Text
  pub action : Action

abbrev pub loaded_from : Text → Text → Text → Action → Loaded
loaded_from object init exit action = record {
  object = object;
  init = drop 1 init;
  exit = drop 1 exit;
  action = action;
}

-- loader.c: `main`. `dlopen` says whether the file can be opened; `dlsym` gets the names less their
-- first character. An empty `argv[1]` has 0 as its first character.
unfoldable pub loader : (Text → Bool) → Text → List ℕ → List ℕ → List ℕ → List Text → Run Loaded
loader dlopen path so pi_init pi_exit (argv0 ∷ what ∷ name ∷ argv) = do
  object ← append_all (emptied so) (path ∷ slash ∷ name ∷ dot_so ∷ [])
  init ← append_all (underscored pi_init) (name ∷ init_suffix ∷ [])
  exit ← append_all (underscored pi_exit) (name ∷ exit_suffix ∷ [])
  let loaded = loaded_from (text_of object) (text_of init) (text_of exit)
  if not (dlopen (text_of object))
      then fatal Fault.loader_failed
      else if starts_with (b'r' ∷ []) what
      then ok (loaded run_plugin)
      else if starts_with (b'i' ∷ []) what
      then ok (loaded show_info)
      else fatal Fault.loader_failed
loader dlopen path so pi_init pi_exit argv = fatal Fault.loader_failed

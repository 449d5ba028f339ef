-- ===== src/Plugin/Names.antt =====
-- The paths and symbols that plugin.c and loader.c put together in buffers of 80 bytes.
use mathlib.Core.List.{append_assoc, append-nil}
use aping.Base.{
  ℕ, zero, suc, ◌+◌, ◌<◌, ◌≤◌, List, [], ◌∷◌, ◌++◌, Bool, true, false, take, length, length-take,
  length-append, ◌==◌, ◌≡◌, refl, sym, ap, ◌∙◌, arith,
}
use aping.Base.Text.{Text}
use aping.Base.Outcome.{ok}
use aping.StrCat.{strlcat}
use aping.StrCat.Appended.{NoZero, Holds, strlcat-Holds}
use aping.Plugin.{
  text_of, append_all, emptied, underscored, slash, dot_so, init_suffix, exit_suffix, starts_with,
  loader, loaded_from, run_plugin, image, child, plugin_init, loader_path, loader_text,
}

-- The texts in sequence.
abbrev concat : List Text → Text
concat [] = []
concat (s ∷ ss) = s ++ concat ss

abbrev AllNoZero : List Text → Type 0
AllNoZero [] = Unit
AllNoZero (s ∷ ss) = NoZero s × AllNoZero ss

take_all : (n : ℕ) (t : Text) → length t ≤ n → take n t ≡ t
take_all zero [] h = refl
take_all zero (c ∷ cs) h = absurd (omega arith)
take_all (suc n) [] h = refl
take_all (suc n) (c ∷ cs) h = ap (◌∷◌ c) (take_all n cs (omega arith))

-- To cut once more at the end changes nothing.
take_twice : (n : ℕ) (s t : Text) → take n (take n s ++ t) ≡ take n (s ++ t)
take_twice zero s t = refl
take_twice (suc n) [] t = refl
take_twice (suc n) (c ∷ cs) t = ap (◌∷◌ c) (take_twice n cs t)

above_zero : (c : ℕ) → 0 < c → (c == 0) ≡ false
above_zero c h = ground arith

text_of_shaped : (t : Text) (rest : List ℕ) → NoZero t → text_of (t ++ (0 ∷ rest)) ≡ t
unfolding text_of
text_of_shaped [] rest h = refl
text_of_shaped (c ∷ cs) rest h = rw (above_zero c h.0, text_of_shaped cs rest h.1) refl

text_of-Holds : (n : ℕ) (buf : List ℕ) (t : Text) → Holds n buf t → text_of buf ≡ t
text_of-Holds n buf t h = ap text_of h.shape ∙ text_of_shaped t h.rest h.zero_free

append_all-cons :
    (buf : List ℕ) (s : Text) (ss : List Text) (r : List ℕ × ℕ)
    → strlcat buf s 80 ≡ ok r
    → append_all buf (s ∷ ss) ≡ append_all r.0 ss
unfolding append_all
append_all-cons buf s ss r h = rw h refl

append_all-nil : (buf : List ℕ) → append_all buf [] ≡ ok buf
unfolding append_all
append_all-nil buf = refl

-- The calls of `strlcat` in sequence: the texts, cut once to 79 characters.
append_all-Holds :
    (buf : List ℕ) (t : Text) (ss : List Text)
    → Holds 80 buf t
    → length t < 80
    → AllNoZero ss
    → (buf' : List ℕ) × (append_all buf ss ≡ ok buf') × (text_of buf' ≡ take 79 (t ++ concat ss))
append_all-Holds buf t [] h short z = (
  buf,
  append_all-nil buf,
  text_of-Holds 80 buf t h ∙ sym (ap (take 79) (append-nil t) ∙ take_all 79 t (omega arith)),
)
append_all-Holds buf t (s ∷ ss) h short z =
    let (buf1, e, h1) = strlcat-Holds 80 buf t s 80 h z.0 short (omega arith) (omega arith) in
    let (buf2, e2, w) =
      append_all-Holds buf1 (take 79 (t ++ s)) ss h1 (omega (arith, length-take 79 (t ++ s))) z.1 in
    (
      buf2,
      append_all-cons buf s ss (buf1, length t + length s) e ∙ e2,
      w ∙ take_twice 79 (t ++ s) (concat ss) ∙ ap (take 79) (append_assoc t s (concat ss)),
    )

emptied-Holds : (buf : List ℕ) → length buf ≡ 80 → Holds 80 (emptied buf) []
emptied-Holds [] h = absurd (omega arith)
emptied-Holds (c ∷ cs) h = record { rest = cs; shape = refl; zero_free = tt; room = h }

underscored-Holds : (buf : List ℕ) → length buf ≡ 80 → Holds 80 (underscored buf) (b'_' ∷ [])
underscored-Holds [] h = absurd (omega arith)
underscored-Holds (c ∷ []) h = absurd (omega arith)
underscored-Holds (c ∷ d ∷ cs) h = record {
  rest = cs;
  shape = refl;
  zero_free = (omega arith, tt);
  room = h;
}

-- A symbol that fits its buffer.
symbol-Holds :
    (buf : List ℕ) (ss : List Text)
    → length buf ≡ 80
    → AllNoZero ss
    → length (concat ss) < 79
    → (b : List ℕ) × (append_all (underscored buf) ss ≡ ok b) × (text_of b ≡ b'_' ∷ concat ss)
symbol-Holds buf ss h z fits =
    let (b, e, w) =
      append_all-Holds (underscored buf) (b'_' ∷ []) ss (underscored-Holds buf h) (omega arith) z in
    (b, e, w ∙ take_all 79 (b'_' ∷ concat ss) (omega arith))

-- A path that fits its buffer.
path-Holds :
    (buf : List ℕ) (path : Text) (ss : List Text)
    → length buf ≡ 80
    → NoZero path
    → AllNoZero ss
    → length path + length (concat ss) < 79
    → (b : List ℕ) × (append_all (emptied buf) (path ∷ slash ∷ ss) ≡ ok b)
      × (text_of b ≡ path ++ (slash ++ concat ss))
path-Holds buf path ss h zp z fits =
    let (b, e, w) =
      append_all-Holds (emptied buf) [] (path ∷ slash ∷ ss) (emptied-Holds buf h) (omega arith)
        (zp, ((omega arith, tt), z)) in
    (
      b,
      e,
      w
          ∙ take_all 79 (path ++ (slash ++ concat ss))
              (omega (arith, length-append path (slash ++ concat ss))),
    )

loader-eq :
    (dlopen : Text → Bool) (path : Text) (so pi_init pi_exit : List ℕ) (argv0 name : Text)
    (more : List Text) (b1 b2 b3 : List ℕ)
    → append_all (emptied so) (path ∷ slash ∷ name ∷ dot_so ∷ []) ≡ ok b1
    → append_all (underscored pi_init) (name ∷ init_suffix ∷ []) ≡ ok b2
    → append_all (underscored pi_exit) (name ∷ exit_suffix ∷ []) ≡ ok b3
    → dlopen (text_of b1) ≡ true
    → loader dlopen path so pi_init pi_exit (argv0 ∷ (b'r' ∷ []) ∷ name ∷ more)
      ≡ ok (loaded_from (text_of b1) (text_of b2) (text_of b3) run_plugin)
unfolding loader starts_with
loader-eq dlopen path so pi_init pi_exit argv0 name more b1 b2 b3 e1 e2 e3 h =
    rw (e1, e2, e3, h) refl

zero_free : NoZero loader_text
zero_free =
    (omega arith, (omega arith, (omega arith, (omega arith, (omega arith, (omega arith, tt))))))

so_free : NoZero dot_so
so_free = (omega arith, (omega arith, (omega arith, tt)))

init_free : NoZero init_suffix
init_free = (omega arith, (omega arith, (omega arith, (omega arith, (omega arith, tt)))))

exit_free : NoZero exit_suffix
exit_free = (omega arith, (omega arith, (omega arith, (omega arith, (omega arith, tt)))))

loader_path-eq :
    (path : Text) (buf b : List ℕ)
    → append_all (emptied buf) (path ∷ slash ∷ loader_text ∷ []) ≡ ok b
    → loader_path path buf ≡ ok (text_of b)
unfolding loader_path
loader_path-eq path buf b e = rw e refl

plugin_init-child :
    (path : Text) (buf : List ℕ) (name : Text) (plugins : List ℕ) (t : Text)
    → loader_path path buf ≡ ok t
    → plugin_init path buf name child plugins ≡ ok (image t (loader_text ∷ (b'r' ∷ []) ∷ name ∷ []))
unfolding plugin_init
plugin_init-child path buf name plugins t e = rw e refl

module _ (dlopen : Text → Bool) (path name : Text) (buf so pi_init pi_exit : List ℕ)
    (plugins : List ℕ) (hb : length buf ≡ 80) (hs : length so ≡ 80) (hi : length pi_init ≡ 80)
    (he : length pi_exit ≡ 80) (zp : NoZero path) (zn : NoZero name) where
  abbrev object_of : Text
  object_of = path ++ (slash ++ (name ++ dot_so))

  -- For buffers of 80 bytes, a path and a name with no zero and fewer than 73 characters
  -- together, and a plugin that can be opened: the child of `plugin_init` becomes the loader
  -- with arguments for which `main` of the loader opens the path of the plugin, looks up its
  -- `_init` and `_exit`, and runs it.
  pub plugin_init-loader :
      length path + length name < 73
      → dlopen object_of ≡ true
      → (args : List Text) × (plugin_init path buf name child plugins
          ≡ ok (image (path ++ (slash ++ loader_text)) args))
        × (loader dlopen path so pi_init pi_exit args
            ≡ ok record {
              object = object_of;
              init = name ++ init_suffix;
              exit = name ++ exit_suffix;
              action = run_plugin;
            })
  plugin_init-loader fits opens =
      let o = length-append name dot_so in
      let n = length-append name init_suffix in
      let x = length-append name exit_suffix in
      let (b0, e0, w0) =
        path-Holds buf path (loader_text ∷ []) hb zp (zero_free, tt) (omega arith) in
      let (b1, e1, w1) =
        path-Holds so path (name ∷ dot_so ∷ []) hs zp (zn, (so_free, tt)) (omega arith) in
      let (b2, e2, w2) =
        symbol-Holds pi_init (name ∷ init_suffix ∷ []) hi (zn, (init_free, tt)) (omega arith) in
      let (b3, e3, w3) =
        symbol-Holds pi_exit (name ∷ exit_suffix ∷ []) he (zn, (exit_free, tt)) (omega arith) in
      (
        loader_text ∷ (b'r' ∷ []) ∷ name ∷ [],
        plugin_init-child path buf name plugins (path ++ (slash ++ loader_text))
            (loader_path-eq path buf b0 e0 ∙ ap ok w0),
        loader-eq dlopen path so pi_init pi_exit loader_text name [] b1 b2 b3 e1 e2 e3
              (ap dlopen w1 ∙ opens)
            ∙ rw (w1, w2, w3) refl,
      )

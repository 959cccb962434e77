-- ===== src/Filter/Policy/Bundle.antt =====
-- LoadRegoFiles of internal/filter/policy/loader.go. An entry of the directory is its name, whether it is a
-- directory, and what reading it gives; a modules map has each name once.
use mathlib.Core.List.Memᴰ
use mathlib.Core.List.{Memᴰ}
use aegis_ai_gateway.Prelude.{
  String, Bool, true, false, ◌||◌, not, Result, ok, err, List, [], ◌∷◌, str_eq, if◌then◌else◌, ◌≡◌,
  ◌⊎◌, inl, inr, refl, sym, ap, ◌∙◌, Bool-cases,
}

pub record DirEntry : Type 0 where
  pub name : String
  pub is_dir : Bool
  pub contents : Result String String

-- `filepath.Ext(name) == ".rego"`: the text from the last dot on is this one exactly if the name ends in it.
unfoldable pub has_rego_ext : String → Bool
has_rego_ext String.[] = false
has_rego_ext (String.◌∷◌ c s) =
    let later = has_rego_ext s in if str_eq (String.◌∷◌ c s) ".rego" then true else later

abbrev pub is_module : DirEntry → Bool
is_module e = not (e.is_dir || not (has_rego_ext e.name))

abbrev pub add_module :
    String
    → Result String String
    → Result String (List (String × String))
    → Result String (List (String × String))
add_module name (err e) rest = err e
add_module name (ok src) (err e) = err e
add_module name (ok src) (ok modules) = ok ((name, src) ∷ modules)

-- The loop over the entries.
unfoldable pub read_entries : List DirEntry → Result String (List (String × String))
unfolding has_rego_ext
read_entries [] = ok []
read_entries (e ∷ es) =
    let rest = read_entries es in if is_module e then add_module e.name e.contents rest else rest

abbrev pub read_dir : Result String (List DirEntry) → Result String (List (String × String))
read_dir (err e) = err e
read_dir (ok entries) = read_entries entries

-- By what `os.ReadDir` gives.
unfoldable pub load_rego_files :
    Result String (List DirEntry) → Result String (List (String × String))
unfolding read_entries
load_rego_files entries = read_dir entries

-- The entries that are no directories and end in ".rego".
abbrev pub Holds : List DirEntry → String → String → Type 0
Holds entries name src =
    (e : DirEntry) × Memᴰ e entries × (is_module e ≡ true) × (e.name ≡ name) × (e.contents ≡ ok src)

add_module-Memᴰ :
    (n : String) (c : Result String String) (rest : Result String (List (String × String)))
    (modules : List (String × String)) (m : String × String)
    → add_module n c rest ≡ ok modules
    → Memᴰ m modules
    → ((src : String) × (c ≡ ok src) × (m ≡ (n, src)))
      ⊎ ((before : List (String × String)) × (rest ≡ ok before) × Memᴰ m before)
add_module-Memᴰ n (err e) rest modules m same at = cc same
add_module-Memᴰ n (ok src) (err e) modules m same at = cc same
add_module-Memᴰ n (ok src) (ok before) modules m same at =
    let shape : (n, src) ∷ before ≡ modules = cc same in
    elim (Memᴰ.cases_cons (rw (← shape) at at)) [
      | inl this ↦ inl (src, refl, this)
      | inr there ↦ inr (before, refl, there)
    ]

held_later :
    (e : DirEntry) (es : List DirEntry) (name src : String)
    → Holds es name src
    → Holds (e ∷ es) name src
held_later e es name src (d, at, is_mod, named, read) = (d, Memᴰ.tail at, is_mod, named, read)

-- What is compiled comes from files of the directory that end in ".rego", each under its name.
pub load_rego_files_sound :
    (entries : List DirEntry) (modules : List (String × String)) (name src : String)
    → load_rego_files (ok entries) ≡ ok modules
    → Memᴰ (name, src) modules
    → Holds entries name src
unfolding load_rego_files read_entries
load_rego_files_sound [] modules name src e at =
    let shape : ◌≡◌ {A = List (String × String)} [] modules = cc e in elim (rw (← shape) at at) [ ]
load_rego_files_sound (d ∷ es) modules name src e at = elim (Bool-cases (is_module d)) [
  | inl is_mod ↦
      elim (add_module-Memᴰ d.name d.contents (read_entries es) modules (name, src) (rw is_mod at e)
        at) [
          | inl (s, read, same) ↦ (
            d,
            Memᴰ.head refl,
            is_mod,
            sym (ap (λ z. z.0) same),
            read ∙ ap (λ z. ok z.1) (sym same),
          )
          | inr (before, earlier, there) ↦
              held_later d es name src (load_rego_files_sound es before name src earlier there)
        ]
  | inr other ↦
      held_later d es name src (load_rego_files_sound es modules name src (rw other at e) at)
]

-- ===== src/Watcher/Reload.antt =====
-- internal/watcher/pattern.go, `isValidPattern`, `allowReload` and `handle`. The numbers of the
-- watcher library's event types are arguments.
use frankenphp.Base.{
  ℕ, ◌≤◌, ◌≡◌, refl, Bool, true, false, not, ◌&&◌, ◌||◌, List, [], ◌∷◌, ◌==◌, leb, if◌then◌else◌,
  arith, ◌⊎◌, none, codes,
}
use frankenphp.Text.{Bytes, slash, split_on, is_empty, has_prefix, trim_prefix}
use frankenphp.Watcher.Match.{Glob, match_pattern, match_curly_brace_pattern, match_patterns}
use frankenphp.Text.{cut}
use frankenphp.Watcher.Braces.{expand_curly_braces}
use frankenphp.Watcher.Parse.{Pattern, split_dir, split_stars, parse_value}

pub record Event : Type 0 where
  pub effect_type : ℕ
  pub path_type : ℕ
  pub path_name : Bytes
  pub associated_path_name : Bytes

pub data Action : Type 0 where
  retry_watching send ignore : Action

-- The choice by the number of parsed values.
unfoldable pub match_parsed : Glob → List Bytes → Bytes → Bool
match_parsed glob [] f = match_patterns glob [] f
match_parsed glob (v ∷ []) f = match_curly_brace_pattern glob v f
match_parsed glob (v ∷ w ∷ vs) f = match_patterns glob (v ∷ w ∷ vs) f

unfoldable pub is_valid_pattern : Glob → Pattern → Bytes → Bool
is_valid_pattern glob p file_name =
    if is_empty file_name
    then false
    else if not (has_prefix file_name p.value)
    then false
    else match_parsed glob p.parsed_values
        (trim_prefix (trim_prefix file_name p.value) (slash ∷ []))

module _ (destroy hard_link watcher : ℕ) where
  unfoldable pub allow_reload : Glob → Pattern → Event → Bool
  allow_reload glob p event =
      if not (leb event.effect_type destroy) || not (leb event.path_type hard_link)
      then false
      else is_valid_pattern glob p event.path_name
        || is_valid_pattern glob p event.associated_path_name

  -- `is_active` is `watcherIsActive`; `send` puts the event on the channel.
  unfoldable pub handle : Bool → Glob → Pattern → Event → Action
  unfolding allow_reload
  handle is_active glob p event =
      if event.path_type == watcher && has_prefix event.path_name (codes "e/self/die@") && is_active
      then retry_watching
      else if allow_reload glob p event
      then send
      else ignore

-- A name in the watched directory.
abbrev pub inside : Pattern → Bytes → Bool
inside p f = not (is_empty f) && has_prefix f p.value

is_valid_pattern-inside :
    (glob : Glob) (p : Pattern) (f : Bytes) → is_valid_pattern glob p f ≡ true → inside p f ≡ true
unfolding is_valid_pattern
is_valid_pattern-inside glob p f h = ground arith

-- A pattern that is only a directory takes every name in it.
match_parsed_all : (glob : Glob) (f : Bytes) → match_parsed glob ([] ∷ []) f ≡ true
unfolding match_parsed match_curly_brace_pattern match_pattern expand_curly_braces cut
match_parsed_all glob f = refl

directory_values :
    (value : Bytes)
    → split_dir [] (split_on slash value) ≡ none
    → (parse_value value).parsed_values ≡ [] ∷ []
unfolding parse_value split_stars
directory_values value h = ground arith

is_valid_pattern-directory :
    (glob : Glob) (p : Pattern) (f : Bytes)
    → p.parsed_values ≡ [] ∷ []
    → is_valid_pattern glob p f ≡ inside p f
unfolding is_valid_pattern
is_valid_pattern-directory glob p f h =
    ground (arith, match_parsed_all glob (trim_prefix (trim_prefix f p.value) (slash ∷ [])))

module _ (destroy hard_link watcher : ℕ) where
  -- Only an event of a known kind reloads, and only for a name in the watched directory.
  pub allow_reload-inside :
      (glob : Glob) (p : Pattern) (e : Event)
      → allow_reload destroy hard_link watcher glob p e ≡ true
      → (e.effect_type ≤ destroy)
        × (e.path_type ≤ hard_link)
        × ((inside p e.path_name ≡ true) ⊎ (inside p e.associated_path_name ≡ true))
  unfolding allow_reload
  allow_reload-inside glob p e h = ground (
    arith,
    is_valid_pattern-inside glob p e.path_name,
    is_valid_pattern-inside glob p e.associated_path_name,
  )

  -- A watched value with no wildcard and no dot in its last part names a directory, and every event
  -- of a known kind for a name in it reloads.
  pub allow_reload-directory :
      (glob : Glob) (value : Bytes) (e : Event)
      → split_dir [] (split_on slash value) ≡ none
      → allow_reload destroy hard_link watcher glob (parse_value value) e ≡ (
          leb e.effect_type destroy
          && (leb e.path_type hard_link
              && (inside (parse_value value) e.path_name
                  || inside (parse_value value) e.associated_path_name)))
  unfolding allow_reload
  allow_reload-directory glob value e h = ground (
    arith,
    is_valid_pattern-directory glob (parse_value value) e.path_name (directory_values value h),
    is_valid_pattern-directory glob (parse_value value) e.associated_path_name
        (directory_values value h),
  )

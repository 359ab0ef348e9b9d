-- ===== src/Cgi/Examples.antt =====
-- cgi.go: the theorems at concrete paths.
use frankenphp.Base.{
  ℕ, ◌≡◌, ◌≢◌, refl, false, Option, none, some, List, [], ◌∷◌, ◌++◌, All, codes, arith,
}
use mathlib.Core.List.{tail}
use frankenphp.Text.{Bytes, slash, split_on, contains_sub}
use frankenphp.Text.Clean.{render, elements, IsProper, is_rooted}
use frankenphp.Cgi.RequestPath.{clean_request_path, sanitized_path_join}
use frankenphp.Cgi.Containment.{base_of, trailing, sanitized_path_join_contained}
use frankenphp.Cgi.DotSegments.{IsPlain, clean_request_path-IsPlain}
use frankenphp.Cgi.SplitPos.{match_from, at_boundary, scan, first_split, split_pos}
use frankenphp.Cgi.SplitPosScan.{nothing, byte, EndsName}
use frankenphp.Cgi.SplitPosLaws.{Found, split_pos_sound, split_pos_complete}
use frankenphp.Cgi.Context.{ScriptWorker, Context, ok, named_script, split_cgi_path}
use frankenphp.Cgi.ContextLaws.{Named, split_cgi_path_sound}

abbrev php : List Bytes
php = codes ".php" ∷ []

abbrev upper_path : Bytes
upper_path = codes "/a.PHP/b"

sanitized_path_join_contained_example :
    (below : List Bytes) × All IsProper below
    × (sanitized_path_join (codes "/srv") (codes "/../x/")
        ≡ render (is_rooted (base_of (codes "/srv"))) (elements (base_of (codes "/srv")) ++ below)
          ++ trailing (codes "/../x/"))
sanitized_path_join_contained_example =
    sanitized_path_join_contained (codes "/srv") (codes "/../x/")

clean_request_path-IsPlain_example :
    All IsPlain (tail (split_on slash (clean_request_path (codes "/a/../b/.") false)))
clean_request_path-IsPlain_example = clean_request_path-IsPlain (codes "/a/../b/.") false

upper_split : split_pos upper_path php ≡ some 6
unfolding split_pos first_split scan match_from at_boundary
upper_split = refl

php-ne-nil : php ≢ []
php-ne-nil h = cc

upper-Found : Found upper_path php 6
upper-Found = split_pos_sound upper_path php 6 php-ne-nil upper_split

split_pos_sound_example : Found upper_path php 6
split_pos_sound_example = split_pos_sound upper_path php 6 php-ne-nil upper_split

split_pos_complete_example : split_pos upper_path php ≢ none
split_pos_complete_example = split_pos_complete upper_path php 6 upper-Found

upper_ends : EndsName (codes ".php") upper_path 6
unfolding at_boundary
upper_ends = record {
  before = codes "/a";
  name = codes ".PHP";
  after = codes "/b";
  parts = refl;
  folds =
      byte (omega arith) refl
        (byte (omega arith) refl (byte (omega arith) refl (byte (omega arith) refl nothing)));
  boundary = refl;
  position = refl;
}

abbrev no_workers : Bytes → Option ScriptWorker
no_workers file = none

abbrev upper_request : Context
upper_request = record {
  url_path = upper_path;
  split_path = some php;
  document_root = codes "/srv";
  worker = none;
  doc_uri = [];
  path_info = [];
  script_name = [];
  script_filename = [];
}

abbrev upper_answer : Context
upper_answer =
    named_script no_workers no_workers upper_path
      (record upper_request { doc_uri = codes "/a.PHP"; path_info = codes "/b" })

upper_split_ok : split_cgi_path no_workers no_workers upper_request ≡ ok upper_answer
unfolding split_cgi_path split_pos first_split scan match_from at_boundary clean_request_path
    contains_sub
upper_split_ok = refl

split_cgi_path_sound_example : (pos : ℕ) × Named upper_request upper_answer pos
split_cgi_path_sound_example =
    split_cgi_path_sound no_workers no_workers upper_request upper_answer refl php-ne-nil
      upper_split_ok

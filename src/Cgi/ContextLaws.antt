-- ===== src/Cgi/ContextLaws.antt =====
-- cgi.go, `splitCgiPath`: which script a request without a worker runs, and when it is refused.
use frankenphp.Base.{
  ℕ, zero, suc, ◌-◌, ◌≤◌, ◌≡◌, refl, sym, ap, ◌∙◌, true, [], ◌∷◌, ◌++◌, Option, none, some, length,
  drop, take, arith, leb, ◌≢◌, ◌↔◌, inl, inr, Option-cases,
}
use native.Mathlib.Decide.{dec_le}
use mathlib.Core.Path.{subst}
use frankenphp.Text.{Bytes, trim_suffix, same}
use frankenphp.Cgi.RequestPath.{ensure_leading_slash, sanitized_path_join}
use frankenphp.Cgi.SplitPos.{split_pos}
use frankenphp.Cgi.SplitPosLaws.{Found, split_pos_sound}
use frankenphp.Cgi.Context.{
  ScriptWorker, Context, ok, invalid_script_path, splits_of, cleaned_path, named_script,
  split_cgi_path,
}

take-drop : (n : ℕ) (p : Bytes) → take n p ++ drop n p ≡ p
take-drop zero p = refl
take-drop (suc n) [] = refl
take-drop (suc n) (c ∷ p) = ap (λ t. c ∷ t) (take-drop n p)

same_refl : (p : Bytes) → same p p ≡ true
same_refl [] = refl
same_refl (c ∷ p) = ground (arith, same_refl p)

length-drop : (n : ℕ) (p : Bytes) → length (drop n p) ≡ length p - n
length-drop zero p = omega arith
length-drop (suc n) [] = omega arith
length-drop (suc n) (c ∷ p) = omega (arith, length-drop n p)

drop_all : (n : ℕ) (p : Bytes) → length p ≤ n → drop n p ≡ []
drop_all zero [] h = refl
drop_all zero (c ∷ p) h = absurd (omega arith)
drop_all (suc n) [] h = refl
drop_all (suc n) (c ∷ p) h = drop_all n p (omega arith)

take_all : (n : ℕ) (p : Bytes) → length p ≤ n → take n p ≡ p
take_all zero [] h = refl
take_all zero (c ∷ p) h = absurd (omega arith)
take_all (suc n) [] h = refl
take_all (suc n) (c ∷ p) h = ap (λ t. c ∷ t) (take_all n p (omega arith))

-- Cutting a tail off again.
trim_suffix-drop : (n : ℕ) (p : Bytes) → trim_suffix p (drop n p) ≡ take n p
trim_suffix-drop n p = elim (dec_le n (length p)) [
  | yes h ↦
      let e : length p - length (drop n p) ≡ n = omega (arith, length-drop n p) in
      let k : leb (length (drop n p)) (length p) ≡ true = ground (arith, length-drop n p) in
      rw e (rw k (rw (same_refl (drop n p))))
  | no h ↦ rw (drop_all n p (omega arith)) (
      let e : length p - 0 ≡ length p = omega arith in
      let k : leb 0 (length p) ≡ true = ground arith in
      rw e (
        rw k (
          rw (
            drop_all (length p) p (omega arith),
            take_all (length p) p (omega arith),
            take_all n p (omega arith),
          ))))
]

ok_inj : {a b : Context} → ok a ≡ ok b → a ≡ b
ok_inj h = cc

-- What a request that names its script gets.
pub record Named (fc after : Context) (pos : ℕ) : Type 0 where
  pub found : Found (cleaned_path fc) (splits_of fc) pos
  pub doc_uri_eq : after.doc_uri ≡ take pos (cleaned_path fc)
  pub whole : after.doc_uri ++ after.path_info ≡ cleaned_path fc
  pub script_name_eq : after.script_name ≡ ensure_leading_slash after.doc_uri
  pub script_filename_eq :
      after.script_filename ≡ sanitized_path_join fc.document_root after.script_name

module _ (server_workers global_workers : Bytes → Option ScriptWorker) where
  split_cgi_path-named :
      (fc : Context) (pos : ℕ)
      → fc.worker ≡ none
      → split_pos (cleaned_path fc) (splits_of fc) ≡ some pos
      → split_cgi_path server_workers global_workers fc
        ≡ ok (
            named_script server_workers global_workers (cleaned_path fc) (record fc {
              doc_uri = take pos (cleaned_path fc);
              path_info = drop pos (cleaned_path fc);
            }))
  unfolding split_cgi_path
  split_cgi_path-named fc pos w e = ground arith

  named_script-Named :
      (fc : Context) (pos : ℕ)
      → Found (cleaned_path fc) (splits_of fc) pos
      → Named fc
          (named_script server_workers global_workers (cleaned_path fc) (record fc {
            doc_uri = take pos (cleaned_path fc);
            path_info = drop pos (cleaned_path fc);
          }))
          pos
  unfolding named_script
  named_script-Named fc pos f = record {
    found = f;
    doc_uri_eq = refl;
    whole = take-drop pos (cleaned_path fc);
    script_name_eq = ap ensure_leading_slash (trim_suffix-drop pos (cleaned_path fc));
    script_filename_eq = refl;
  }

  -- A request to which no worker was assigned, with a split configured, runs a script only under a
  -- name that ends in one of the splits: DOCUMENT_URI is the part of the cleaned path up to there,
  -- PATH_INFO the rest, SCRIPT_NAME is DOCUMENT_URI with a leading slash, SCRIPT_FILENAME is
  -- SCRIPT_NAME joined to the document root.
  pub split_cgi_path_sound :
      (fc after : Context)
      → fc.worker ≡ none
      → splits_of fc ≢ []
      → split_cgi_path server_workers global_workers fc ≡ ok after
      → (pos : ℕ) × Named fc after pos
  split_cgi_path_sound fc after w n h =
      elim (Option-cases (split_pos (cleaned_path fc) (splits_of fc))) [
        | inl e ↦ absurd (unfold split_cgi_path in ground arith)
        | inr (pos, e) ↦ (
          pos,
          subst (λ t. Named fc t pos) (ok_inj (sym (split_cgi_path-named fc pos w e) ∙ h))
              (named_script-Named fc pos
                (split_pos_sound (cleaned_path fc) (splits_of fc) pos n e)),
        )
      ]

  -- A request is refused exactly where no worker was assigned and no split is found in the cleaned
  -- path.
  pub split_cgi_path_refuses :
      (fc : Context)
      → (split_cgi_path server_workers global_workers fc ≡ invalid_script_path)
        ↔ ((fc.worker ≡ none) × (split_pos (cleaned_path fc) (splits_of fc) ≡ none))
  unfolding split_cgi_path
  split_cgi_path_refuses fc = (λ h. ground arith, λ h. ground arith)

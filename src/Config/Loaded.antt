-- ===== src/Config/Loaded.antt =====
-- What src/config.rs lets through when it loads the configuration.
use carddav_mcp.Base.{
  ℕ, ◌≡◌, ◌≢◌, subst, arith, Bool, false, ◌&&◌, List, [], ◌∷◌, ◌++◌, inl, inr, All, Bool-cases,
  ◌==◌, if◌then◌else◌,
}
use carddav_mcp.Base.Str.{Text, trim_end_matches, is_empty}
use carddav_mcp.OauthRedirect.Allowed.{IsListed}
use carddav_mcp.Config.{strip_trailing_slash}

-- No slash at the end.
abbrev pub IsBare : Text → Type 0
IsBare s = (t : Text) → s ≢ t ++ b'/' ∷ []

-- One step of the trimming, on what is left of the rest.
trimmed-last :
    (p : ℕ → Bool) (b : ℕ) (rest t : Text) (c : ℕ)
    → ((t' : Text) → rest ≡ t' ++ c ∷ [] → p c ≡ false)
    → (if p b && is_empty rest then [] else b ∷ rest) ≡ t ++ c ∷ []
    → p c ≡ false
trimmed-last p b [] [] c k h = elim (Bool-cases (p b)) [
  | inl gone ↦ absurd (ground arith)
  | inr kept ↦ let e : b ≡ c = ground arith in subst (λ x. p x ≡ false) e kept
]
trimmed-last p b [] (d ∷ []) c k h = absurd (ground arith)
trimmed-last p b [] (d ∷ d' ∷ t) c k h = absurd (ground arith)
trimmed-last p b (x ∷ rest) [] c k h = absurd (ground arith)
trimmed-last p b (x ∷ rest) (d ∷ t) c k h = k t (ground arith)

trim_end_matches-last :
    (p : ℕ → Bool) (s t : Text) (c : ℕ) → trim_end_matches p s ≡ t ++ c ∷ [] → p c ≡ false
unfolding trim_end_matches
trim_end_matches-last p [] [] c h = absurd (ground arith)
trim_end_matches-last p [] (d ∷ t) c h = absurd (ground arith)
trim_end_matches-last p (b ∷ s) t c h =
    trimmed-last p b (trim_end_matches p s) t c (λ t' h'. trim_end_matches-last p s t' c h') h

pub strip_trailing_slash-IsBare : (s : Text) → IsBare (strip_trailing_slash s)
unfolding strip_trailing_slash
strip_trailing_slash-IsBare s t h =
    absurd (ground (arith, trim_end_matches-last (λ c. c == b'/') s t b'/' h))

pub All-IsListed :
    (P : Text → Type 0) (entries : List Text) (t : Text) → All P entries → IsListed entries t → P t
All-IsListed P [] t all l = absurd l
All-IsListed P (e ∷ entries) t all (inl same_text) = subst P same_text all.0
All-IsListed P (e ∷ entries) t all (inr later) = All-IsListed P entries t all.1 later

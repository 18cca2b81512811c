-- ===== src/Prefill/Replay.antt =====
-- What reaches the client of a stream that repeats the text sent so far.
use codex_shim.Prelude.{
  ℕ, ◌+◌, ◌≡◌, ◌≢◌, refl, sym, ap, ◌∙◌, ◌⊎◌, inl, inr, ◌||◌, false, some, List, [], ◌∷◌, ◌++◌,
  append-nil, append_assoc, Text, arith, nat_eq_iff, leb, length, length-append, drop, is_empty,
}
use codex_shim.Prefill.{matching, skip_replayed_prefix, filter_texts}

abbrev pub joined : List Text → Text
joined [] = []
joined (t ∷ ts) = t ++ joined ts

-- Of two ways to cut a text, one cut comes first.
append_split :
    (a b c d : Text)
    → a ++ b ≡ c ++ d
    → ((m : Text) × (c ≡ a ++ m) × (b ≡ m ++ d)) ⊎ ((m : Text) × (a ≡ c ++ m) × (d ≡ m ++ b))
append_split [] b c d e = inl (c, refl, e)
append_split (x ∷ a) b [] d e = inr (x ∷ a, refl, sym e)
append_split (x ∷ a) b (y ∷ c) d e = elim (append_split a b c d cc) [
  | inl (m, p, q) ↦ inl (m, cc, q)
  | inr (m, p, q) ↦ inr (m, cc, q)
]

matching-append : (c m : Text) → matching (c ++ m) c ≡ length c
unfolding matching
matching-append [] [] = refl
matching-append [] (x ∷ m) = refl
matching-append (x ∷ c) m = ground (arith, matching-append c m, nat_eq_iff x x)

matching_whole : (p r : Text) → matching p (p ++ r) ≡ length p
unfolding matching
matching_whole [] r = refl
matching_whole (x ∷ p) r = ground (arith, matching_whole p r, nat_eq_iff x x)

drop-length : (a b : Text) → drop (length a) (a ++ b) ≡ b
drop-length [] b = refl
drop-length (x ∷ a) b = drop-length a b

not_yet :
    (done : Text) (a : ℕ) (p : Text)
    → (is_empty (done ++ a ∷ p) || leb (length (done ++ a ∷ p)) (length done)) ≡ false
not_yet [] a p = ground arith
not_yet (x ∷ done) a p = ground (arith, length-append done (a ∷ p))

-- A chunk that repeats a part of what is left is swallowed.
skip_within :
    (done : Text) (a : ℕ) (p c m : Text)
    → a ∷ p ≡ c ++ m
    → skip_replayed_prefix (done ++ a ∷ p) c (some (length done))
      ≡ ([], some (length done + length c))
unfolding skip_replayed_prefix
skip_within done a p c m e =
    let offset : matching (a ∷ p) c ≡ length c = rw e (matching-append c m) in
    let nothing : drop (length c) c ≡ [] =
      ap (drop (length c)) (sym (append-nil c)) ∙ drop-length c [] in
    rw (not_yet done a p, drop-length done (a ∷ p), offset, nothing) (ground arith)

-- A chunk that goes beyond what is left is cut there.
skip_past :
    (done : Text) (a : ℕ) (p r : Text)
    → skip_replayed_prefix (done ++ a ∷ p) (a ∷ p ++ r) (some (length done))
      ≡ (r, some (length (done ++ a ∷ p)))
unfolding skip_replayed_prefix
skip_past done a p r =
    let whole : matching (a ∷ p) (a ∷ p ++ r) ≡ length (a ∷ p) = matching_whole (a ∷ p) r in
    let ends : length done + length (a ∷ p) ≡ length (done ++ a ∷ p) =
      sym (length-append done (a ∷ p)) in
    rw (not_yet done a p, drop-length done (a ∷ p), whole, drop-length p r, ends) (ground arith)

-- After the prefix everything passes.
skip_done :
    (prefix c : Text)
    → skip_replayed_prefix prefix c (some (length prefix)) ≡ (c, some (length prefix))
unfolding skip_replayed_prefix
skip_done prefix c = ground arith

filter_texts-done :
    (prefix : Text) (chunks : List Text)
    → filter_texts prefix (some (length prefix)) chunks ≡ joined chunks
unfolding filter_texts
filter_texts-done prefix [] = refl
filter_texts-done prefix (c ∷ chunks) =
    rw (skip_done prefix c, filter_texts-done prefix chunks) refl

filter_step :
    (prefix c t : Text) (chunks : List Text) (n n' : ℕ)
    → skip_replayed_prefix prefix c (some n) ≡ (t, some n')
    → filter_texts prefix (some n) (c ∷ chunks) ≡ t ++ filter_texts prefix (some n') chunks
unfolding filter_texts
filter_step prefix c t chunks n n' e = rw e refl

filter_texts-rest :
    (done p rest : Text) (chunks : List Text)
    → joined chunks ≡ p ++ rest
    → filter_texts (done ++ p) (some (length done)) chunks ≡ rest
filter_texts-rest done [] rest chunks e = rw (append-nil done) (filter_texts-done done chunks ∙ e)
filter_texts-rest done (a ∷ p) rest [] e = cc
filter_texts-rest done (a ∷ p) rest (c ∷ chunks) e =
    elim (append_split c (joined chunks) (a ∷ p) rest e) [
      | inl (m, part, left) ↦
          let later : filter_texts ((done ++ c) ++ m) (some (length (done ++ c))) chunks ≡ rest =
            filter_texts-rest (done ++ c) m rest chunks left in
          let same : (done ++ c) ++ m ≡ done ++ a ∷ p =
            append_assoc done c m ∙ ap (λ t. done ++ t) (sym part) in
          filter_step (done ++ a ∷ p) c [] chunks (length done) (length done + length c)
            (skip_within done a p c m part)
          ∙ ap (λ n. filter_texts (done ++ a ∷ p) (some n) chunks) (sym (length-append done c))
          ∙ ap (λ t. filter_texts t (some (length (done ++ c))) chunks) (sym same)
          ∙ later
      | inr (m, beyond, left) ↦
          filter_step (done ++ a ∷ p) c m chunks (length done) (length (done ++ a ∷ p)) (
            ap (λ t. skip_replayed_prefix (done ++ a ∷ p) t (some (length done))) beyond
            ∙ skip_past done a p m)
          ∙ ap (λ t. m ++ t) (filter_texts-done (done ++ a ∷ p) chunks)
          ∙ sym left
    ]

-- Where the upstream repeats the whole prefix and goes on, what leaves the skipper is what follows
-- the prefix, however the stream is cut into chunks.
pub filter_texts-replay :
    (prefix rest : Text) (chunks : List Text)
    → joined chunks ≡ prefix ++ rest
    → filter_texts prefix (some 0) chunks ≡ rest
filter_texts-replay prefix rest chunks e = filter_texts-rest [] prefix rest chunks e

-- A text that is no replay, but begins with the first character of the prefix, loses that character
-- if it comes as a chunk of its own, while in one chunk the text passes whole.
pub filter_texts-split :
    (a b c : ℕ) (p t : Text)
    → b ≢ c
    → (filter_texts (a ∷ b ∷ p) (some 0) ((a ∷ []) ∷ (c ∷ t) ∷ []) ≡ c ∷ t)
      × (filter_texts (a ∷ b ∷ p) (some 0) ((a ∷ c ∷ t) ∷ []) ≡ a ∷ c ∷ t)
unfolding filter_texts skip_replayed_prefix matching
filter_texts-split a b c p t ne = (
  ground (arith, nat_eq_iff a a, nat_eq_iff b c, append-nil (c ∷ t)),
  ground (arith, nat_eq_iff a a, nat_eq_iff b c, append-nil (a ∷ c ∷ t)),
)

-- ===== src/Text/Split/Join.antt =====
-- SplitString and JoinString of src/defines.cpp together, for a delimiter of one byte and no limit on
-- the number of parts: the way every handler of src/peer_client.cpp takes a message apart.
use mathlib.Core.List.{flat_map, append_cancel_right, concat-ne-nil, cons-ne-nil}
use native.Mathlib.Decide.{ℕ_discrete}
use p2p_file_sharing_system.Prelude.{
  ℕ, ◌+◌, ◌≡◌, ◌≢◌, refl, sym, ap, ◌∙◌, List, [], ◌∷◌, ◌++◌, append_assoc, append-nil, arith,
  negsuc, All, All-append,
}
use p2p_file_sharing_system.Text.{Bytes, Lacks}
use p2p_file_sharing_system.Text.Split.{split_loop, split_string, join_loop, join_string}

-- The last part is not empty.
abbrev pub LastFilled : List Bytes → Type 0
LastFilled [] = Unit
LastFilled (p ∷ []) = p ≢ []
LastFilled (p ∷ q ∷ ps) = LastFilled (q ∷ ps)

module _ (d : ℕ) where
  -- Every part with a delimiter behind it.
  unfoldable pub terminated : List Bytes → Bytes
  unfolding flat_map
  terminated = flat_map (λ p. p ++ d ∷ [])

  terminated-append : (ps qs : List Bytes) → terminated (ps ++ qs) ≡ terminated ps ++ terminated qs
  unfolding terminated
  terminated-append [] qs = refl
  terminated-append (p ∷ ps) qs = simp (terminated-append ps, append_assoc)

  join_loop-terminated :
      (p : Bytes) (ps : List Bytes) (out : Bytes)
      → join_loop (p ∷ ps) (d ∷ []) out ++ d ∷ [] ≡ out ++ terminated (p ∷ ps)
  unfolding join_loop terminated
  join_loop-terminated p [] out = simp (append_assoc, append-nil)
  join_loop-terminated p (q ∷ ps) out = simp (join_loop-terminated q ps, append_assoc)

  split_at_delim :
      (s part : Bytes) (n : ℕ) (result : List Bytes)
      → split_loop (d ∷ []) (negsuc 0) (d ∷ s) part n result
        ≡ split_loop (d ∷ []) (negsuc 0) s [] (n + 1) (result ++ part ∷ [])
  unfolding split_loop
  split_at_delim s part n result = ground arith

  split_at_other :
      (c : ℕ) (s part : Bytes) (n : ℕ) (result : List Bytes)
      → c ≢ d
      → split_loop (d ∷ []) (negsuc 0) (c ∷ s) part n result
        ≡ split_loop (d ∷ []) (negsuc 0) s (part ++ c ∷ []) n result
  unfolding split_loop
  split_at_other c s part n result h = ground arith

  split_end : (n : ℕ) (result : List Bytes) → split_loop (d ∷ []) (negsuc 0) [] [] n result ≡ result
  unfolding split_loop
  split_end n result = refl

  split_end_part :
      (part : Bytes) (c n : ℕ) (result : List Bytes)
      → split_loop (d ∷ []) (negsuc 0) [] (part ++ c ∷ []) n result
        ≡ result ++ (part ++ c ∷ []) ∷ []
  unfolding split_loop
  split_end_part [] c n result = refl
  split_end_part (b ∷ part) c n result = refl

  terminated_last :
      (result : List Bytes) (part : Bytes)
      → terminated (result ++ part ∷ []) ≡ terminated result ++ (part ++ d ∷ [])
  unfolding terminated
  terminated_last [] part = rw append-nil
  terminated_last (p ∷ ps) part = simp (terminated_last ps, append_assoc)

  -- The loop over a text that ends in a delimiter spells that text.
  terminated-closed :
      (s part : Bytes) (n : ℕ) (result : List Bytes)
      → terminated (split_loop (d ∷ []) (negsuc 0) (s ++ d ∷ []) part n result)
        ≡ terminated result ++ (part ++ (s ++ d ∷ []))
  terminated-closed [] part n result = rw (split_at_delim, split_end) (terminated_last result part)
  terminated-closed (c ∷ s) part n result = elim (ℕ_discrete c d) [
    | yes e ↦
        rw
          (e, split_at_delim, terminated-closed s [] (n + 1) (result ++ part ∷ []), terminated_last)
          (simp append_assoc)
    | no e ↦
        rw (split_at_other c _ part n result e, terminated-closed s (part ++ c ∷ []) n result)
          (simp append_assoc)
  ]

  -- Over a text that ends in another byte it adds the delimiter.
  terminated-open :
      (s part : Bytes) (c n : ℕ) (result : List Bytes)
      → c ≢ d
      → terminated (split_loop (d ∷ []) (negsuc 0) (s ++ c ∷ []) part n result)
        ≡ terminated result ++ (part ++ (s ++ c ∷ d ∷ []))
  terminated-open [] part c n result h =
      rw (split_at_other c [] part n result h, split_end_part, terminated_last) (simp append_assoc)
  terminated-open (b ∷ s) part c n result h = elim (ℕ_discrete b d) [
    | yes e ↦
        rw
          (
            e,
            split_at_delim,
            terminated-open s [] c (n + 1) (result ++ part ∷ []) h,
            terminated_last,
          )
          (simp append_assoc)
    | no e ↦
        rw (split_at_other b _ part n result e, terminated-open s (part ++ b ∷ []) c n result h)
          (simp append_assoc)
  ]

  terminated-join : (ps : List Bytes) → ps ≢ [] → join_string ps (d ∷ []) ++ d ∷ [] ≡ terminated ps
  unfolding join_string
  terminated-join [] h = absurd (h refl)
  terminated-join (p ∷ ps) h = join_loop-terminated p ps []

  terminated-ne-nil : (ps : List Bytes) → terminated ps ≢ [] → ps ≢ []
  unfolding terminated
  terminated-ne-nil [] h = absurd (h refl)
  terminated-ne-nil (p ∷ ps) h = cons-ne-nil p ps

  -- Parts that spell `t` and a delimiter are joined to `t`.
  join_of_terminated :
      (ps : List Bytes) (t : Bytes) → terminated ps ≡ t ++ d ∷ [] → join_string ps (d ∷ []) ≡ t
  join_of_terminated ps t e = append_cancel_right _ _ (d ∷ []) (terminated-join ps some_part ∙ e)
    where
      some_part : ps ≢ []
      some_part = terminated-ne-nil ps (λ z. concat-ne-nil d t (sym e ∙ z))

  -- Passing over text without the delimiter lengthens the part.
  split_loop-append :
      (p rest part : Bytes) (n : ℕ) (result : List Bytes)
      → Lacks d p
      → split_loop (d ∷ []) (negsuc 0) (p ++ rest) part n result
        ≡ split_loop (d ∷ []) (negsuc 0) rest (part ++ p) n result
  split_loop-append [] rest part n result h = rw append-nil
  split_loop-append (c ∷ p) rest part n result h =
      rw
        (
          split_at_other c _ part n result h.0,
          split_loop-append p rest (part ++ c ∷ []) n result h.1,
        )
        (simp append_assoc)

  split_loop-terminated :
      (ps : List Bytes) (n : ℕ) (result : List Bytes)
      → All (Lacks d) ps
      → split_loop (d ∷ []) (negsuc 0) (terminated ps) [] n result ≡ result ++ ps
  unfolding terminated
  split_loop-terminated [] n result h = split_end n result ∙ sym (append-nil result)
  split_loop-terminated (p ∷ ps) n result (hp, hps) =
      rw
        (
          append_assoc p (d ∷ []) (terminated ps),
          split_loop-append p (d ∷ terminated ps) [] n result hp,
          split_at_delim,
          split_loop-terminated ps (n + 1) (result ++ p ∷ []) hps,
        )
        (append_assoc result (p ∷ []) ps)

  join_loop-out :
      (p : Bytes) (ps : List Bytes) (out : Bytes)
      → join_loop (p ∷ ps) (d ∷ []) out ≡ out ++ join_loop (p ∷ ps) (d ∷ []) []
  unfolding join_loop
  join_loop-out p [] out = refl
  join_loop-out p (q ∷ ps) out =
      rw (join_loop-out q ps ((out ++ p) ++ d ∷ []), join_loop-out q ps (p ++ d ∷ []))
        (simp append_assoc)

  split_filled :
      (p : Bytes) (n : ℕ) (result : List Bytes)
      → p ≢ []
      → split_loop (d ∷ []) (negsuc 0) [] p n result ≡ result ++ p ∷ []
  unfolding split_loop
  split_filled [] n result h = absurd (h refl)
  split_filled (c ∷ p) n result h = refl

  split_loop-join_loop :
      (p : Bytes) (ps : List Bytes) (n : ℕ) (result : List Bytes)
      → All (Lacks d) (p ∷ ps)
      → LastFilled (p ∷ ps)
      → split_loop (d ∷ []) (negsuc 0) (join_loop (p ∷ ps) (d ∷ []) []) [] n result
        ≡ result ++ p ∷ ps
  unfolding join_loop
  split_loop-join_loop p [] n result (hp, _) filled =
      ap (λ s. split_loop (d ∷ []) (negsuc 0) s [] n result) (sym (append-nil p))
      ∙ split_loop-append p [] [] n result hp
      ∙ split_filled p n result filled
  split_loop-join_loop p (q ∷ ps) n result (hp, hps) filled =
      rw
        (
          join_loop-out q ps (p ++ d ∷ []),
          append_assoc p (d ∷ []) (join_loop (q ∷ ps) (d ∷ []) []),
          split_loop-append p (d ∷ join_loop (q ∷ ps) (d ∷ []) []) [] n result hp,
          split_at_delim,
          split_loop-join_loop q ps (n + 1) (result ++ p ∷ []) hps filled,
        )
        (simp append_assoc)

-- Joining the parts of a split gives a text back that ends in another byte than the delimiter, and
-- the text without its last byte where that is the delimiter.
pub join_string-split_string :
    (t : Bytes) (d c : ℕ)
    → c ≢ d
    → (join_string (split_string (t ++ d ∷ []) (d ∷ []) (negsuc 0)) (d ∷ []) ≡ t)
      × (join_string (split_string (t ++ c ∷ []) (d ∷ []) (negsuc 0)) (d ∷ []) ≡ t ++ c ∷ [])
unfolding split_string terminated
join_string-split_string t d c h = (
  join_of_terminated d _ t (terminated-closed d t [] 0 []),
  join_of_terminated d _ (t ++ c ∷ []) (terminated-open d t [] c 0 [] h ∙ simp append_assoc),
)

-- Splitting a join gives the parts back, if none holds the delimiter and the last is not empty.
pub split_string-join_string :
    (ps : List Bytes) (d : ℕ)
    → All (Lacks d) ps
    → LastFilled ps
    → split_string (join_string ps (d ∷ [])) (d ∷ []) (negsuc 0) ≡ ps
unfolding split_string join_string
split_string-join_string [] d h filled = split_end d 0 []
split_string-join_string (p ∷ ps) d h filled = split_loop-join_loop d p ps 0 [] h filled

pub split_string-terminated :
    (ps : List Bytes) (d : ℕ)
    → All (Lacks d) ps
    → split_string (terminated d ps) (d ∷ []) (negsuc 0) ≡ ps
unfolding split_string
split_string-terminated ps d h = split_loop-terminated d ps 0 [] h

join_loop-Lacks :
    (b d : ℕ) (ps : List Bytes) (out : Bytes)
    → d ≢ b
    → Lacks b out
    → All (Lacks b) ps
    → Lacks b (join_loop ps (d ∷ []) out)
unfolding join_loop
join_loop-Lacks b d [] out h o _ = o
join_loop-Lacks b d (p ∷ []) out h o (hp, _) = All-append (λ c. c ≢ b) out p o hp
join_loop-Lacks b d (p ∷ q ∷ ps) out h o (hp, hs) =
    join_loop-Lacks b d (q ∷ ps) ((out ++ p) ++ d ∷ []) h
      (All-append (λ c. c ≢ b) (out ++ p) (d ∷ []) (All-append (λ c. c ≢ b) out p o hp) (h, tt)) hs

-- A byte that is in no part and not the delimiter is not in the join.
pub join_string-Lacks :
    (b d : ℕ) (ps : List Bytes) → d ≢ b → All (Lacks b) ps → Lacks b (join_string ps (d ∷ []))
unfolding join_string
join_string-Lacks b d [] h hs = tt
join_string-Lacks b d (p ∷ ps) h hs = join_loop-Lacks b d (p ∷ ps) [] h tt hs

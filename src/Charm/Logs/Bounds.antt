-- ===== src/Charm/Logs/Bounds.antt =====
-- How much a fetch returns, and how many lines it asks for.
use demos_rework.Base.{
  ℕ, ◌+◌, ◌≤◌, ◌<◌, ◌≡◌, refl, List, [], ◌∷◌, ◌++◌, arith, drop, ltb, length, length-append, All,
  Bool-cases, inl, inr, ◌⊎◌,
}
use demos_rework.Base.Text.{Text}
use demos_rework.Base.Int.{ℤ, pos, negsuc}
use demos_rework.Charm.Logs.{
  Frame, output, control, no_channel, decode_log_frame, fetched, gather, max_result, clamp_tail,
}

Frame-cases : (f : Frame) → (f ≡ no_channel) ⊎ ((f ≡ control) ⊎ ((t : Text) × (f ≡ output t)))
Frame-cases no_channel = inl refl
Frame-cases control = inr (inl refl)
Frame-cases (output t) = inr (inr (t, refl))

-- No frame shows more than that many characters.
abbrev pub Shows : (List ℕ → Text) → ℕ → List (List ℕ) → Type 0
Shows decode most frames = All (λ f. length (decode (drop 1 f)) ≤ most) frames

frame_shows :
    (decode : List ℕ → Text) (most : ℕ) (f : List ℕ) (t : Text)
    → length (decode (drop 1 f)) ≤ most
    → decode_log_frame decode f ≡ output t
    → length t ≤ most
unfolding decode_log_frame
frame_shows decode most [] t h e = cc
frame_shows decode most (c ∷ f) t h e = ground arith

same_length : (s t : Text) → fetched s ≡ fetched t → length s ≡ length t
same_length s t e = cc

gather_bounded :
    (decode : List ℕ → Text) (most : ℕ) (chunks : Text) (total : ℕ) (frames : List (List ℕ))
    (logs : Text)
    → total ≡ length chunks
    → total < max_result + most
    → Shows decode most frames
    → gather decode chunks total frames ≡ fetched logs
    → length logs < max_result + most
unfolding gather
gather_bounded decode most chunks total [] logs counted room shows e =
    omega (arith, counted, room, same_length chunks logs e)
gather_bounded decode most chunks total (f ∷ frames) logs counted room shows e =
    elim (Bool-cases (ltb total max_result)) [
      | inr full ↦ omega (arith, counted, room, same_length chunks logs (rw (full, gather) at e))
      | inl more ↦ elim (Frame-cases (decode_log_frame decode f)) [
        | inl empty ↦ cc (rw (more, empty, gather) at e)
        | inr (inl dropped) ↦
            gather_bounded decode most chunks total frames logs counted room shows.1
              (rw (more, dropped, gather) at e)
        | inr (inr (t, shown)) ↦
            gather_bounded decode most (chunks ++ t) (total + length t) frames logs
              (omega (arith, counted, length-append chunks t))
              (ground (arith, more, frame_shows decode most f t shows.0 shown)) shows.1
              (rw (more, shown, gather) at e)
      ]
    ]

-- What a fetch returns has fewer characters than the limit and one frame more, where a frame shows
-- at most `most` characters.
pub gather-lt :
    (decode : List ℕ → Text) (most : ℕ) (frames : List (List ℕ)) (logs : Text)
    → Shows decode most frames
    → gather decode [] 0 frames ≡ fetched logs
    → length logs < 64_000 + most
gather-lt decode most frames logs shows e =
    gather_bounded decode most [] 0 frames logs refl (omega arith) shows e

pub clamp_tail_bounds : (tail : ℤ) → (1 ≤ clamp_tail tail) × (clamp_tail tail ≤ 2000)
unfolding clamp_tail
clamp_tail_bounds (pos n) = ground arith
clamp_tail_bounds (negsuc n) = ground arith

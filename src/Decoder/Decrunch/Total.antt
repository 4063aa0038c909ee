-- ===== src/Decoder/Decrunch/Total.antt =====
-- Where `decrunch` leaves the window, and that its loop comes to an end.
use cxx_unlzx.Base.{
  ℕ, zero, suc, ◌-◌, ◌≤◌, ◌<◌, ◌≡◌, ◌⊎◌, inl, inr, arith, true, false, Bool-cases, ◌&&◌, not, ltb,
  length, ltb→le,
}
use cxx_unlzx.Exec.{Outcome, done, fail, fault, exhausted, ◌>>◌}
use cxx_unlzx.Exec.Ensures.{Ensures, Ensures-bind, Ensures-if_outcome}
use cxx_unlzx.Input.{is_eof}
use cxx_unlzx.Input.Stream.{IsValid}
use cxx_unlzx.Decoder.Decrunch.{Window, decrunch_once, decrunch_loop, decrunch}
use cxx_unlzx.Decoder.Decrunch.Ready.{IsReady, IsReady-carry}
use cxx_unlzx.Decoder.Decrunch.Grows.{
  Grows, Grows-trans, Grows-refl, stays_safe, decrunch_once-Advances,
}

-- What the loop stops for.
abbrev pub HasStopped : ℕ → Window → Type 0
HasStopped threshold w = (threshold ≤ w.pos) ⊎ (is_eof w.source ≡ true)

-- The window after `decrunch`. Undefined behaviour is held to `F`.
abbrev pub Decrunched : Type 0 → ℕ → Window → Outcome Window (Unit {0}) → Type 0
Decrunched F threshold w o = Ensures (λ _ t. Grows w t × HasStopped threshold t) (Grows w) F o

stopped :
    (threshold : ℕ) (w : Window)
    → (ltb w.pos threshold && not (is_eof w.source)) ≡ false
    → HasStopped threshold w
stopped threshold w e = elim (Bool-cases (ltb w.pos threshold)) [
  | inl more ↦ elim (Bool-cases (is_eof w.source)) [
    | inl eof ↦ inr eof
    | inr left ↦ absurd (ground (arith, more, left, e))
  ]
  | inr enough ↦ inl (ltb→le w.pos threshold enough)
]

module _ (F : Type 0) where
  Decrunched-after :
      (threshold : ℕ) (w t : Window) (o : Outcome Window (Unit {0}))
      → Grows w t
      → Decrunched F threshold t o
      → Decrunched F threshold w o
  Decrunched-after threshold w t (done a d) g h = (Grows-trans w t d g h.0, h.1)
  Decrunched-after threshold w t (fail e d) g h = Grows-trans w t d g h
  Decrunched-after threshold w t fault g h = h
  Decrunched-after threshold w t exhausted g h = h

  decrunch_loop_lem :
      (fuel threshold : ℕ) (w : Window)
      → IsValid w.source
      → w.pos ≤ length w.target
      → F ⊎ IsReady w.decoder
      → threshold - w.pos < fuel
      → Decrunched F threshold w (decrunch_loop fuel threshold w)
  unfolding decrunch_loop
  decrunch_loop_lem zero threshold w v inside safe enough = elim enough [ ]
  decrunch_loop_lem (suc fuel) threshold w v inside safe enough =
      Ensures-if_outcome (λ _ t. Grows w t × HasStopped threshold t) (Grows w) F
        (ltb w.pos threshold && not (is_eof w.source))
        ((decrunch_once >> decrunch_loop fuel threshold) w) (done tt w)
        (λ more.
          let below : w.pos < threshold = ground arith in
          Ensures-bind (λ _ t. Grows w t × (w.pos < t.pos))
            (λ _ t. Grows w t × HasStopped threshold t) (Grows w) F (decrunch_once w) _
            (decrunch_once-Advances F w v inside safe)
            (λ _ t h. Decrunched-after threshold w t (decrunch_loop fuel threshold t) h.0 (
              decrunch_loop_lem fuel threshold t h.0.moves.valid
                (omega (arith, h.0.placed, h.0.same_length))
                (stays_safe (IsReady-carry w.decoder t.decoder h.0.same_tables) safe)
                (omega (arith, h.1)))))
        (λ stop. (Grows-refl v inside, stopped threshold w stop))

  pub decrunch-Decrunched :
      (threshold : ℕ) (w : Window)
      → IsValid w.source
      → w.pos ≤ length w.target
      → F ⊎ IsReady w.decoder
      → Decrunched F threshold w (decrunch threshold w)
  unfolding decrunch
  decrunch-Decrunched threshold w v inside safe =
      decrunch_loop_lem (suc threshold) threshold w v inside safe (omega arith)

-- On a window with a valid source, `pos` inside the target, and tables that lead nowhere outside
-- their arrays, `decrunch` returns and makes no access outside an array. Also with an error, the
-- source has only moved on, the target has its old size and its old bytes below the old `pos`,
-- `pos` did not go back and is inside the target, and the decoder changed at most in its last
-- offset; where it returns Ok, `pos` has reached the threshold or the source is at its end.
pub decrunch_safe :
    (threshold : ℕ) (w : Window)
    → IsValid w.source
    → w.pos ≤ length w.target
    → IsReady w.decoder
    → Decrunched ⊥ threshold w (decrunch threshold w)
decrunch_safe threshold w v inside ready = decrunch-Decrunched ⊥ threshold w v inside (inr ready)

-- On a window with a valid source and `pos` inside the target, `decrunch` returns, whatever the
-- tables hold, unless it makes an access outside an array. Where it returns, also with an error,
-- the source has only moved on, the target has its old size and its old bytes below the old `pos`,
-- `pos` did not go back and is inside the target, and the decoder changed at most in its last
-- offset; where it returns Ok, `pos` has reached the threshold or the source is at its end.
pub decrunch_lem :
    (threshold : ℕ) (w : Window)
    → IsValid w.source
    → w.pos ≤ length w.target
    → Decrunched Unit threshold w (decrunch threshold w)
decrunch_lem threshold w v inside = decrunch-Decrunched Unit threshold w v inside (inl tt)

-- ===== src/Store/Samples/Bounds.antt =====
-- The samples that are kept and listed, by memory.go.
use Prim.Native.Nat.{min}
use mathlib.Core.List.{reverse}
use orbit_telemetry_orchestr.Prelude.{
  ℕ, zero, suc, ◌+◌, ◌-◌, String, ◌≡◌, refl, sym, ◌∙◌, inl, inr, true, false, ◌&&◌, List, [], ◌∷◌,
  ◌++◌, arith, if◌then◌else◌, Bool-cases, ltb, leb, ℤ, pos, negsuc, ◌<ℤ◌, pos_part, Time, length,
  length-append, length-drop, take, take-append-drop, keep,
}
use orbit_telemetry_orchestr.Domain.Telemetry.{Sample}
use orbit_telemetry_orchestr.Store.{Memory}
use orbit_telemetry_orchestr.Store.Samples.{
  max_samples, trim_samples, add_samples, sample_matches, list_samples_loop, list_samples,
}
use mathlib.Core.List.{append-nil, append_assoc}

module _ {F : Type 0} where
  -- The newest 10000 of the samples that were stored and added are kept, in their order: at most so
  -- many are, all if there were no more, and what is dropped stood before what is kept.
  pub add_samples_lem :
      (m : Memory F) (added : List (Sample F))
      → let kept = (add_samples added m).samples in
        let given = m.samples ++ added in
        (length kept ≡ min max_samples (length given))
        × ((dropped : List (Sample F)) × (dropped ++ kept ≡ given))
  unfolding add_samples trim_samples
  add_samples_lem m added = elim (Bool-cases (ltb max_samples (length given))) [
    | inl more ↦ rw more (
      length-drop (length given - max_samples) given ∙ ground arith,
      (
        take (length given - max_samples) given,
        take-append-drop (length given - max_samples) given,
      ),
    )
    | inr fits ↦ rw fits (ground arith, ([], refl))
  ]
    where
      given : List (Sample F)
      given = m.samples ++ added

  -- `take` at a limit of at least 1, all items otherwise.
  abbrev pub limited : ℤ → List (Sample F) → List (Sample F)
  limited limit xs = if pos 0 <ℤ limit then take (pos_part limit) xs else xs

  -- With `room` items to go, the loop adds so many of the matching ones at most.
  list_samples_limited :
      (stream_id : String) (start end : Time) (k room : ℕ) (result rest : List (Sample F))
      → length result + suc room ≡ k
      → list_samples_loop stream_id start end (pos k) result rest
        ≡ result ++ take (suc room) (keep (sample_matches stream_id start end) rest)
  unfolding list_samples_loop
  list_samples_limited stream_id start end k room result [] h = sym (append-nil result)
  list_samples_limited stream_id start end k zero result (s ∷ rest) h =
      elim (Bool-cases (sample_matches stream_id start end s)) [
        | inl match ↦ rw (match, full) refl
        | inr other ↦ rw other (list_samples_limited stream_id start end k zero result rest h)
      ]
    where
      full : ((pos 0 <ℤ pos k) && leb k (length (result ++ s ∷ []))) ≡ true
      full = ground (arith, length-append result (s ∷ []))
  list_samples_limited stream_id start end k (suc room) result (s ∷ rest) h =
      elim (Bool-cases (sample_matches stream_id start end s)) [
        | inl match ↦
            rw (match, space)
              (list_samples_limited stream_id start end k room (result ++ s ∷ []) rest
                  (omega (arith, length-append result (s ∷ [])))
                ∙ append_assoc result (s ∷ []) _)
        | inr other ↦ rw other (list_samples_limited stream_id start end k (suc room) result rest h)
      ]
    where
      space : ((pos 0 <ℤ pos k) && leb k (length (result ++ s ∷ []))) ≡ false
      space = ground (arith, length-append result (s ∷ []))

  list_samples_all :
      (stream_id : String) (start end : Time) (limit : ℤ) (result rest : List (Sample F))
      → (pos 0 <ℤ limit) ≡ false
      → list_samples_loop stream_id start end limit result rest
        ≡ result ++ keep (sample_matches stream_id start end) rest
  unfolding list_samples_loop
  list_samples_all stream_id start end limit result [] h = sym (append-nil result)
  list_samples_all stream_id start end limit result (s ∷ rest) h =
      elim (Bool-cases (sample_matches stream_id start end s)) [
        | inl match ↦
            rw (match, h)
              (list_samples_all stream_id start end limit (result ++ s ∷ []) rest h
                ∙ append_assoc result (s ∷ []) _)
        | inr other ↦ rw other (list_samples_all stream_id start end limit result rest h)
      ]

  -- The list is that of the matching samples, the newest first, up to the limit.
  pub list_samples_lem :
      (m : Memory F) (stream_id : String) (start end : Time) (limit : ℤ)
      → list_samples m stream_id start end limit
        ≡ limited limit (keep (sample_matches stream_id start end) (reverse m.samples))
  unfolding list_samples
  list_samples_lem m stream_id start end (pos zero) =
      list_samples_all stream_id start end (pos 0) [] (reverse m.samples) refl
  list_samples_lem m stream_id start end (pos (suc k)) =
      list_samples_limited stream_id start end (suc k) k [] (reverse m.samples) (omega arith)
      ∙ ground arith
  list_samples_lem m stream_id start end (negsuc n) =
      list_samples_all stream_id start end (negsuc n) [] (reverse m.samples) (ground arith)
      ∙ ground arith

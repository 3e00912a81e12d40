-- ===== src/Daemon/Rounds.antt =====
-- The rounds of the daemon (trace/daemon/core_daemon.c, the loop of record_measures).
use dmacftu.Prelude.{
  ℕ, zero, suc, ◌≡◌, refl, ap, sym, ◌∙◌, List, [], ◌∷◌, ◌++◌, Option, none, some, pos, negsuc,
  arith, ◌+◌, ◌*◌, ◌≤◌, length, length-append, Option-cases, inl, inr,
}
use mathlib.Core.List.{append_assoc, append-nil}
use dmacftu.CircularBuffer.{UnitBuff}
use dmacftu.Trace.{RegionMem}
use dmacftu.Daemon.{DaemonTrace, efault, Device, World, Host}
use dmacftu.Daemon.Text.{line_of, lines_of}
use dmacftu.Daemon.Lines.{length-line_of}
use dmacftu.Daemon.Save.{Outcome, save_measure, measures}
use dmacftu.Daemon.Saving.{Records, AreCounted, saved, not_saved, save_measure-Saved}
use dmacftu.Daemon.Record.{record_loop}

-- The measures that n reads of the device give.
abbrev pub measured : (dev : Device) → ℕ → dev.State → List UnitBuff
measured dev zero s = []
measured dev (suc n) s = elim (dev.read s).0 [
  | none ↦ []
  | some rs ↦ measures rs ++ measured dev n (dev.read s).1
]

-- A device that keeps a condition on its state, under which the regions that it gives have measures
-- for their counts.
pub record IsSteady (dev : Device) (Good : dev.State → Type 0) : Type 0 where
  pub keeps : (s : dev.State) → Good s → Good (dev.read s).1
  pub counts :
      (s : dev.State) (rs : List RegionMem) → Good s → (dev.read s).0 ≡ some rs → AreCounted rs

lines_of-append : (us vs : List UnitBuff) → lines_of (us ++ vs) ≡ lines_of us ++ lines_of vs
lines_of-append [] vs = refl
lines_of-append (u ∷ us) vs =
    ap (λ xs. line_of u ++ xs) (lines_of-append us vs)
    ∙ sym (append_assoc (line_of u) (lines_of us) (lines_of vs))

-- A line has at most 200 bytes.
length-lines_of : (us : List UnitBuff) → length (lines_of us) ≤ 200 * length us
length-lines_of [] = omega arith
length-lines_of (u ∷ us) =
    omega (arith, length-append (line_of u) (lines_of us), length-line_of u, length-lines_of us)

-- How the rounds end: with the lines of all measures, or with an error.
pub data Looped (text : List ℕ) (d : DaemonTrace) {S : Type 0} (w : World S)
    (out : Option (Outcome S)) : Type 0 where
  looped :
      (offset : ℕ) (sparse : List ℕ) (s : S)
      → out
        ≡ some (pos 0, record d { offset_map = offset }, record w { sparse = sparse; device = s })
      → Records text (record d { offset_map = offset }) sparse
      → Looped text d w out
  not_looped :
      (e offset : ℕ) (sparse : List ℕ) (s : S)
      → out
        ≡ some
            (negsuc e, record d { offset_map = offset }, record w { sparse = sparse; device = s })
      → Looped text d w out

module _ (dev : Device) (host : Host) where
  read-failed :
      (i : ℕ) (d : DaemonTrace) (w : World dev.State)
      → (dev.read w.device).0 ≡ none
      → save_measure dev host i d w ≡ some (efault, d, record w { device = (dev.read w.device).1 })
  unfolding save_measure
  read-failed i d w e = rw e refl

  record_loop-stop :
      (n i e : ℕ) (d d' : DaemonTrace) (w w' : World dev.State)
      → save_measure dev host i d w ≡ some (negsuc e, d', w')
      → record_loop dev host (suc n) i d w ≡ some (negsuc e, d', w')
  unfolding record_loop
  record_loop-stop n i e d d' w w' z = ground (arith, z)

  record_loop-next :
      (n i r : ℕ) (d d' : DaemonTrace) (w w' : World dev.State)
      → save_measure dev host i d w ≡ some (pos r, d', w')
      → record_loop dev host (suc n) i d w ≡ record_loop dev host n (suc i) d' w'
  unfolding record_loop
  record_loop-next n i r d d' w w' z = ground (arith, z)

  measured-next :
      (n : ℕ) (s : dev.State) (rs : List RegionMem)
      → (dev.read s).0 ≡ some rs
      → measured dev (suc n) s ≡ measures rs ++ measured dev n (dev.read s).1
  measured-next n s rs e = ground (arith, e)

  Looped-next :
      (text : List ℕ) (d : DaemonTrace) (w : World dev.State) (offset : ℕ) (sparse : List ℕ)
      (s : dev.State) (out : Option (Outcome dev.State))
      → Looped text
          (record d { offset_map = offset })
          (record w { sparse = sparse; device = s })
          out
      → Looped text d w out
  Looped-next text d w offset sparse s out (looped o sp s' e r) = looped o sp s' e r
  Looped-next text d w offset sparse s out (not_looped n o sp s' e) = not_looped n o sp s' e

  pub record_loop-Looped :
      (n i : ℕ) (text : List ℕ) (d : DaemonTrace) (w : World dev.State) {Good : dev.State → Type 0}
      → IsSteady dev Good
      → Good w.device
      → Records text d w.sparse
      → length text + 200 * length (measured dev n w.device) ≤ w.size
      → Looped (text ++ lines_of (measured dev n w.device)) d w (record_loop dev host n i d w)
  unfolding record_loop
  record_loop-Looped zero i text d w steady good r room =
      rw (append-nil text) (looped d.offset_map w.sparse w.device refl r)
  record_loop-Looped (suc n) i text d w steady good r room =
      elim (Option-cases (dev.read w.device).0) [
        | inl e ↦
            rw (record_loop-stop n i 13 d d w _ (read-failed i d w e))
              (not_looped 13 d.offset_map w.sparse (dev.read w.device).1 refl)
        | inr (rs, e) ↦
            let later = measured dev n (dev.read w.device).1 in
            let count =
              ap length (measured-next n w.device rs e) ∙ length-append (measures rs) later in
            let lines = length-append text (lines_of (measures rs)) in
            elim (save_measure-Saved dev host i rs text d w e (steady.counts w.device rs good e) r
              (omega (arith, room, count))) [
                | not_saved err offset sparse z ↦
                    rw (record_loop-stop n i err d _ w _ z)
                      (not_looped err offset sparse (dev.read w.device).1 refl)
                | saved offset sparse z r' ↦
                    rw
                      (
                        record_loop-next n i 0 d _ w _ z,
                        measured-next n w.device rs e,
                        lines_of-append (measures rs) (measured dev n (dev.read w.device).1),
                        sym (
                            append_assoc text (lines_of (measures rs))
                              (lines_of (measured dev n (dev.read w.device).1))),
                      )
                      (Looped-next
                        (text
                          ++ lines_of (measures rs)
                          ++ lines_of (measured dev n (dev.read w.device).1))
                        d w offset sparse (dev.read w.device).1 _
                        (record_loop-Looped n (suc i) (text ++ lines_of (measures rs))
                          (record d { offset_map = offset })
                          (record w { sparse = sparse; device = (dev.read w.device).1 }) steady
                          (steady.keeps w.device good) r'
                          (omega (arith, room, count, lines, length-lines_of (measures rs)))))
              ]
      ]

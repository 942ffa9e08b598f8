-- ===== src/SocketActivation/UnitTests/Blocks/Packing.antt =====
-- The result of the unit tests' `dup_pack_fds` in server/src/socket_activation.rs.
use tere.Prelude.{
  ℕ, zero, suc, ◌+◌, ◌*◌, ◌%◌, ◌≡◌, ◌≤◌, ◌<◌, refl, sym, ap, ◌∙◌, subst, inl, inr, true, false,
  Option, none, some, List, [], ◌∷◌, ◌++◌, append-nil, ltb, arith, Bool-cases, Outcome, ok, err,
  panic, Build, length,
}
use tere.Prelude.Int.{pos, negsuc, int_eq, int_eq_iff}
use tere.Std.Number.{usize_limit}
use tere.Std.Fd.{RawFd, Table, count, count-append, Owns, opened-Owns, close_all-Owns, Owns-perm}
use tere.Ipc.OwnedFd.{OwnedFd, raws, from_raw_fd, drop_fds, drop_fds-close_all}
use tere.SocketActivation.UnitTests.Blocks.{
  Fcntl, Lowest, failed, lowest, Process, usize_add, duplicated, dupfd_at, Packed, placed, pack_one,
  pack, tried, dup_pack_fds,
}

-- `n` consecutive descriptors from `o` on.
abbrev pub range : ℕ → ℕ → List RawFd
range o zero = []
range o (suc n) = pos o ∷ range (o + 1) n

range-suc : (o n : ℕ) → range o (suc n) ≡ range o n ++ pos (o + n) ∷ []
range-suc o zero = ap (λ m. pos m ∷ []) (omega arith)
range-suc o (suc n) =
    let e : (o + 1) + n ≡ o + suc n = omega arith in
    ap (λ xs. pos o ∷ xs) (range-suc (o + 1) n ∙ ap (λ m. range (o + 1) n ++ pos m ∷ []) e)

range-snoc : (o n : ℕ) → range o (n + 1) ≡ range o n ++ pos (o + n) ∷ []
range-snoc o n = let e : n + 1 ≡ suc n = omega arith in ap (range o) e ∙ range-suc o n

count-range : (m o n : ℕ) → o + n ≤ m → count (pos m) (range o n) ≡ 0
count-range m o zero h = refl
count-range m o (suc n) h = ground (arith, count-range m (o + 1) n (omega arith))

raws-append : (xs ys : List OwnedFd) → raws (xs ++ ys) ≡ raws xs ++ raws ys
raws-append [] ys = refl
raws-append (x ∷ xs) ys = ap (λ zs. x.raw ∷ zs) (raws-append xs ys)

from_raw_fd-pos : (b : Build) (m : ℕ) → from_raw_fd b (pos m) ≡ ok (record { raw = pos m })
unfolding from_raw_fd
from_raw_fd-pos b m = ground arith

module _ (before : List RawFd) (bad bound : ℕ) where
  -- A new descriptor, which is the first number tried where nothing is open from it on.
  abbrev Duplicated : ℕ → List RawFd → Outcome ℕ OwnedFd × Table → Type 0
  Duplicated n owned (ok new, t) =
      Owns (new.raw ∷ owned) before bad t × (bound ≤ n → count (pos n) owned ≡ 0 → new.raw ≡ pos n)
  Duplicated n owned (err e, t) = Owns owned before bad t
  Duplicated n owned (panic p, t) = ⊥

  abbrev Tried : ℕ → ℕ → Packed → Type 0
  Tried o k (ok (some ps), t) = (raws ps ≡ range o k) × Owns (raws ps) before bad t
  Tried o k (ok none, t) = Owns [] before bad t × (o < bound)
  Tried o k (err e, t) = Owns [] before bad t
  Tried o k (panic p, t) = ⊥

  drop_fds-Owns :
      (ps : List OwnedFd) (t : Table)
      → Owns (raws ps) before bad t
      → Owns [] before bad (drop_fds ps t)
  drop_fds-Owns ps t o = subst (Owns [] before bad) (sym (drop_fds-close_all ps t)) (
      close_all-Owns (raws ps) [] t
        (subst (λ xs. Owns xs before bad t) (sym (append-nil (raws ps))) o))

-- A block of `k` consecutive descriptors, from `first` or later, or the error of a failed call
-- with none left open. The counter points behind the block.
abbrev pub IsBlock :
    (before : List RawFd) (bad first k : ℕ) → Option (Outcome ℕ (List OwnedFd)) × Process → Type 0
IsBlock before bad first k (some (ok ps), s) =
    (o : ℕ) × (first ≤ o)
    × (raws ps ≡ range o k)
    × (s.offset ≡ o + k)
    × Owns (raws ps) before bad s.table
IsBlock before bad first k (some (err e), s) = Owns [] before bad s.table
IsBlock before bad first k (some (panic p), s) = ⊥
IsBlock before bad first k (none, s) = ⊥

module _ (b : Build) (fcntl : Fcntl)
    (law : (fd : RawFd) (n : ℕ) (t : Table) → Lowest n t (fcntl fd n t).0) (before : List RawFd)
    (bad bound : ℕ) (bounded : (m : ℕ) → bound ≤ m → count (pos m) before ≡ 0) where
  dupfd_at-Duplicated :
      (fd : RawFd) (n : ℕ) (owned : List RawFd) (t : Table)
      → Owns owned before bad t
      → Duplicated before bad bound n owned (dupfd_at b fcntl fd n t)
  unfolding dupfd_at
  dupfd_at-Duplicated fd n owned t o = at (fcntl fd n t) (law fd n t)
    where
      at :
          (r : RawFd × ℕ)
          → Lowest n t r.0
          → Duplicated before bad bound n owned (duplicated b fcntl r t)
      at (negsuc k, e) l = o
      at (pos m, e) (failed h) = cc
      at (pos m, e) (lowest _ le _ first) =
          let here : bound ≤ n → count (pos n) owned ≡ 0 → m ≡ n = λ out none_owned.
            let unused : count (pos n) t.open_fds ≡ 0 =
              omega (arith, o.counts (pos n), none_owned, bounded n out) in
            let not_later : n < m → ⊥ = λ lt. first n (omega arith) lt unused in ground arith in
          rw (from_raw_fd-pos b m) (
            opened-Owns before bad (pos m) owned t o,
            λ out none_owned. ap pos (here out none_owned),
          )

  module _ (o idx k : ℕ) (packed : List OwnedFd) (dense : raws packed ≡ range o idx) where
    added-range :
        (new : OwnedFd) → new.raw ≡ pos (o + idx) → raws (packed ++ new ∷ []) ≡ range o (idx + 1)
    added-range new e = rw (raws-append packed (new ∷ []), dense, e, range-snoc o idx) refl

    added-Owns :
        (new : OwnedFd) (t : Table)
        → Owns (new.raw ∷ raws packed) before bad t
        → Owns (raws (packed ++ new ∷ [])) before bad t
    added-Owns new t own = rw (raws-append packed (new ∷ [])) (
        Owns-perm (new.raw ∷ raws packed) (raws packed ++ new.raw ∷ []) t
          (λ x. ground (arith, count-append x (raws packed) (new.raw ∷ []))) own)

    small : (bound ≤ o → ⊥) → o < bound
    small h = ground arith

    not_at :
        {new : OwnedFd}
        → int_eq new.raw (pos (o + idx)) ≡ false
        → (bound ≤ o + idx → count (pos (o + idx)) (raws packed) ≡ 0 → new.raw ≡ pos (o + idx))
        → bound ≤ o
        → ⊥
    not_at {new} n here le =
        let none_there : count (pos (o + idx)) (raws packed) ≡ 0 =
          rw (dense) (count-range (o + idx) o idx (omega arith)) in
        let e = (int_eq_iff new.raw (pos (o + idx))).1 (here (omega arith) none_there) in cc

    placed-Tried :
        (r : Outcome ℕ OwnedFd × Table) (rest : OwnedFd → Table → Packed)
        → Duplicated before bad bound (o + idx) (raws packed) r
        → ((new : OwnedFd) (t : Table)
            → Owns (raws (packed ++ new ∷ [])) before bad t
            → raws (packed ++ new ∷ []) ≡ range o (idx + 1)
            → Tried before bad bound o k (rest new t))
        → Tried before bad bound o k (placed b fcntl (o + idx) packed r rest)
    unfolding drop_fds
    placed-Tried (err e, t) rest d later = drop_fds-Owns before bad bound packed t d
    placed-Tried (panic p, t) rest d later = absurd d
    placed-Tried (ok new, t) rest (own, here) later =
        elim (Bool-cases (int_eq new.raw (pos (o + idx)))) [
          | inl y ↦ rw (y) (
              later new t (added-Owns new t own)
                (added-range new ((int_eq_iff new.raw (pos (o + idx))).0 y)))
          | inr n ↦
              rw (n) (drop_fds-Owns before bad bound (new ∷ packed) t own, small (not_at n here))
        ]

  pack-Tried :
      (o : ℕ) (fds : List RawFd) (idx : ℕ) (packed : List OwnedFd) (t : Table)
      → Owns (raws packed) before bad t
      → raws packed ≡ range o idx
      → o + idx + length fds < usize_limit
      → Tried before bad bound o (idx + length fds) (pack b fcntl o idx fds packed t)
  unfolding pack pack_one usize_add
  pack-Tried o [] idx packed t own dense lt =
      let e : idx ≡ idx + 0 = omega arith in (dense ∙ ap (range o) e, own)
  pack-Tried o (fd ∷ fds) idx packed t own dense lt =
      let fits : ltb (o + idx) usize_limit ≡ true = ground arith in
      let e : (idx + 1) + length fds ≡ idx + suc (length fds) = omega arith in
      rw (fits) (
        placed-Tried o idx (idx + suc (length fds)) packed dense (dupfd_at b fcntl fd (o + idx) t)
          (λ new t'. pack b fcntl o (idx + 1) fds (packed ++ new ∷ []) t')
          (dupfd_at-Duplicated fd (o + idx) (raws packed) t own)
          (λ new t' own' dense'.
            subst
              (λ k.
                Tried before bad bound o k (pack b fcntl o (idx + 1) fds (packed ++ new ∷ []) t'))
              e (pack-Tried o fds (idx + 1) (packed ++ new ∷ []) t' own' dense' (omega arith))))

  pack-Tried_first :
      (o : ℕ) (fds : List RawFd) (t : Table)
      → Owns [] before bad t
      → o + length fds < usize_limit
      → Tried before bad bound o (length fds) (pack b fcntl o 0 fds [] t)
  pack-Tried_first o fds t own lt =
      let e : 0 + length fds ≡ length fds = omega arith in
      subst (λ k. Tried before bad bound o k (pack b fcntl o 0 fds [] t)) e
        (pack-Tried o fds 0 [] t own refl (omega arith))

  tried-IsBlock :
      (first o k : ℕ)
      → first ≤ o
      → o + k < usize_limit
      → (r : Packed) → Tried before bad bound o k r
      → (rest : Process → Option (Outcome ℕ (List OwnedFd)) × Process)
      → ((t : Table)
          → Owns [] before bad t
          → o < bound
          → IsBlock before bad first k (rest (record { offset = o + k; table = t })))
      → IsBlock before bad first k (tried b fcntl ((o + k) % usize_limit) r rest)
  tried-IsBlock first o k le lt (ok none, t) (own, under) rest later =
      let e : (o + k) % usize_limit ≡ o + k = omega arith in rw (e) (later t own under)
  tried-IsBlock first o k le lt (ok (some ps), t) (dense, own) rest later =
      (o, le, dense, omega arith, own)
  tried-IsBlock first o k le lt (err e, t) own rest later = own
  tried-IsBlock first o k le lt (panic p, t) h rest later = absurd h

  -- If `F_DUPFD_CLOEXEC` returns an error or the lowest unused number from its argument on, then
  -- `dup_pack_fds` ends, without a panic. It returns as many descriptors as it was given, with
  -- consecutive numbers that are not below the counter's first value, and the counter points
  -- behind them. Or it returns the error of a call. Open afterwards are the descriptors from before
  -- and the returned ones, and no others. This holds if all the descriptors from before lie below
  -- a bound that the counter reaches within the given rounds, and the counter does not overflow.
  pub dup_pack_fds-IsBlock :
      (fuel : ℕ) (fds : List RawFd) (first : ℕ) (s : Process)
      → Owns [] before bad s.table
      → first ≤ s.offset
      → bound ≤ s.offset + fuel * length fds
      → s.offset + (fuel + 1) * length fds < usize_limit
      → IsBlock before bad first (length fds) (dup_pack_fds b fcntl (suc fuel) fds s)
  unfolding dup_pack_fds
  dup_pack_fds-IsBlock zero fds first s own le far lt =
      tried-IsBlock first s.offset (length fds) le (omega arith)
        (pack b fcntl s.offset 0 fds [] s.table)
        (pack-Tried_first s.offset fds s.table own (omega arith)) (λ s'. (none, s'))
        (λ t own' under. absurd (ground arith))
  dup_pack_fds-IsBlock (suc fuel) fds first s own le far lt =
      tried-IsBlock first s.offset (length fds) le (omega arith)
        (pack b fcntl s.offset 0 fds [] s.table)
        (pack-Tried_first s.offset fds s.table own (omega arith))
        (λ s'. dup_pack_fds b fcntl (suc fuel) fds s')
        (λ t own' under.
          dup_pack_fds-IsBlock fuel fds first (record { offset = s.offset + length fds; table = t })
            own' (omega arith) (omega arith) (omega arith))

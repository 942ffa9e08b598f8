-- ===== src/Std/Fd.antt =====
-- File descriptors: a process's table of open ones, `libc::close`, and who owns which.
use tere.Prelude.{
  ℕ, suc, ◌+◌, ◌≡◌, Bool, true, false, List, [], ◌∷◌, ◌++◌, if◌then◌else◌, arith, ◌==◌, subst, sym,
  append-nil,
}
use tere.Prelude.Int.{ℤ, pos, negsuc, int_eq, int_eq_iff}

abbrev pub RawFd : Type 0
RawFd = ℤ

abbrev pub is_negative : RawFd → Bool
is_negative (pos n) = false
is_negative (negsuc n) = true

-- The open descriptors, and how often `close` was called with one that was not open.
pub record Table : Type 0 where
  pub open_fds : List RawFd
  pub bad_closes : ℕ

abbrev pub count : RawFd → List RawFd → ℕ
count x [] = 0
count x (y ∷ ys) = if int_eq y x then suc (count x ys) else count x ys

unfoldable pub remove_first : RawFd → List RawFd → List RawFd
remove_first x [] = []
remove_first x (y ∷ ys) = if int_eq y x then ys else y ∷ remove_first x ys

unfoldable pub close : RawFd → Table → Table
unfolding remove_first
close fd t =
    if count fd t.open_fds == 0
    then record t { bad_closes = t.bad_closes + 1 }
    else record t { open_fds = remove_first fd t.open_fds }

unfoldable pub close_all : List RawFd → Table → Table
close_all [] t = t
close_all (fd ∷ fds) t = close_all fds (close fd t)

pub count-append : (x : RawFd) (xs ys : List RawFd) → count x (xs ++ ys) ≡ count x xs + count x ys
count-append x [] ys = omega arith
count-append x (y ∷ xs) ys = ground (arith, count-append x xs ys)

count-remove_first :
    (x y : RawFd) (ys : List RawFd)
    → (count y ys == 0) ≡ false
    → count x (y ∷ remove_first y ys) ≡ count x ys
unfolding remove_first
count-remove_first x y [] h = cc
count-remove_first x y (z ∷ ys) h =
    ground (arith, int_eq_iff z y, int_eq_iff z x, int_eq_iff y x, count-remove_first x y ys)

-- The open descriptors are `owned` and `before`, in some order; `bad` closes have failed.
pub record Owns (owned before : List RawFd) (bad : ℕ) (t : Table) : Type 0 where
  pub counts : (x : RawFd) → count x t.open_fds ≡ count x owned + count x before
  pub clean : t.bad_closes ≡ bad

pub count_self : (fd : RawFd) (fds : List RawFd) → (count fd (fd ∷ fds) == 0) ≡ false
count_self fd fds = ground (arith, int_eq_iff fd fd)

module _ {before : List RawFd} {bad : ℕ} where
  pub close-Owns :
      (fd : RawFd) (owned : List RawFd) (t : Table)
      → Owns (fd ∷ owned) before bad t
      → Owns owned before bad (close fd t)
  unfolding close
  close-Owns fd owned t o =
      let held : (count fd t.open_fds == 0) ≡ false =
        ground (arith, o.counts fd, count_self fd owned) in
      record {
        counts = λ x. rw held (ground (arith, o.counts x, count-remove_first x fd t.open_fds held));
        clean = rw held o.clean;
      }

  pub close_all-Owns :
      (fds owned : List RawFd) (t : Table)
      → Owns (fds ++ owned) before bad t
      → Owns owned before bad (close_all fds t)
  unfolding close_all
  close_all-Owns [] owned t o = o
  close_all-Owns (fd ∷ fds) owned t o =
      close_all-Owns fds owned (close fd t) (close-Owns fd (fds ++ owned) t o)

  -- Nothing is owned once everything is closed.
  pub close_all-Owns_all :
      (fds : List RawFd) (t : Table) → Owns fds before bad t → Owns [] before bad (close_all fds t)
  close_all-Owns_all fds t o =
      close_all-Owns fds [] t (subst (λ l. Owns l before bad t) (sym (append-nil fds)) o)

  -- The order of the owned descriptors does not matter.
  pub Owns-perm :
      (xs ys : List RawFd) (t : Table)
      → ((x : RawFd) → count x xs ≡ count x ys)
      → Owns xs before bad t
      → Owns ys before bad t
  Owns-perm xs ys t same o = record {
    counts = λ x. omega (arith, o.counts x, same x);
    clean = o.clean;
  }

-- A system call has returned a new descriptor.
unfoldable pub opened : RawFd → Table → Table
opened fd t = record t { open_fds = fd ∷ t.open_fds }

pub opened-Owns :
    (before : List RawFd) (bad : ℕ) (fd : RawFd) (owned : List RawFd) (t : Table)
    → Owns owned before bad t
    → Owns (fd ∷ owned) before bad (opened fd t)
unfolding opened
opened-Owns before bad fd owned t o = record {
  counts = λ x. ground (arith, o.counts x);
  clean = o.clean;
}

unfoldable pub opened_all : List RawFd → Table → Table
unfolding opened
opened_all [] t = t
opened_all (fd ∷ fds) t = opened fd (opened_all fds t)

-- ===== src/TimeHelper.antt =====
-- TaskSystem/src/TimeHelper.c: differences and sums of the times that the benchmarks take.
use francois_gingras_master.Common.{
  ◌+◌, ◌<◌, ◌≤◌, ◌^◌, ◌≡◌, ap, ◌∙◌, refl, Bool-cases, inl, inr, ℤ, pos, negsuc, leb_ℤ, sub_ℕ,
  pos_part, neg_part, if◌then◌else◌, arith, true, false, ap₂, Outcome, done, ◌>>=◌, in_range,
  in_range-done,
}

-- struct timespec. A `long` has 64 bits.
pub record Timespec : Type 0 where
  pub tv_sec : ℤ
  pub tv_nsec : ℤ

-- Sum and difference of integers of any size.
abbrev add : ℤ → ℤ → ℤ
add a b = sub_ℕ (pos_part a + pos_part b) (neg_part a + neg_part b)

abbrev sub : ℤ → ℤ → ℤ
sub a b = sub_ℕ (pos_part a + neg_part b) (neg_part a + pos_part b)

-- Sum and difference of two `long`s.
plus : ℤ → ℤ → Outcome ℤ
plus a b = in_range (2 ^ 63) (add a b)

minus : ℤ → ℤ → Outcome ℤ
minus a b = in_range (2 ^ 63) (sub a b)

abbrev giga : ℤ
giga = pos 1000000000

-- The two branches of `diff`.
diff_borrow : Timespec → Timespec → Outcome Timespec
unfolding plus minus
diff_borrow start end = do
  sec ← minus end.tv_sec start.tv_sec
  sec' ← minus sec (pos 1)
  nsec ← plus giga end.tv_nsec
  nsec' ← minus nsec start.tv_nsec
  done (record { tv_sec = sec'; tv_nsec = nsec' })

diff_plain : Timespec → Timespec → Outcome Timespec
unfolding minus
diff_plain start end = do
  sec ← minus end.tv_sec start.tv_sec
  nsec ← minus end.tv_nsec start.tv_nsec
  done (record { tv_sec = sec; tv_nsec = nsec })

pub diff : Timespec → Timespec → Outcome Timespec
diff start end = do
  nsec ← minus end.tv_nsec start.tv_nsec
  if leb_ℤ nsec (negsuc 0) then diff_borrow start end else diff_plain start end

carry : ℤ → ℤ → Outcome Timespec
unfolding plus minus
carry sec nsec = do
  sec' ← plus sec (pos 1)
  nsec' ← minus nsec giga
  done (record { tv_sec = sec'; tv_nsec = nsec' })

-- tsAdd
pub ts_add : Timespec → Timespec → Outcome Timespec
unfolding plus carry
ts_add time1 time2 = do
  sec ← plus time1.tv_sec time2.tv_sec
  nsec ← plus time1.tv_nsec time2.tv_nsec
  if leb_ℤ giga nsec then carry sec nsec else done (record { tv_sec = sec; tv_nsec = nsec })

-- The nanoseconds are less than a second, and the seconds less than 2^62 from 0 on either side.
pub record IsNormal (t : Timespec) : Type 0 where
  pub from_zero : neg_part t.tv_nsec ≡ 0
  pub below_giga : pos_part t.tv_nsec < 1000000000
  pub moderate : pos_part t.tv_sec + neg_part t.tv_sec < 2 ^ 62

same_time :
    {a b c d : ℤ}
    → a ≡ c
    → b ≡ d
    → ◌≡◌ {A = Timespec} (record { tv_sec = a; tv_nsec = b }) (record { tv_sec = c; tv_nsec = d })
same_time e f = ap₂ (λ x y. record { tv_sec = x; tv_nsec = y }) e f

plus_lem :
    (a b : ℤ)
    → pos_part (add a b) < 2 ^ 63
    → neg_part (add a b) ≤ 2 ^ 63
    → plus a b ≡ done (add a b)
unfolding plus
plus_lem a b h k = in_range-done (2 ^ 63) (add a b) h k

minus_lem :
    (a b : ℤ)
    → pos_part (sub a b) < 2 ^ 63
    → neg_part (sub a b) ≤ 2 ^ 63
    → minus a b ≡ done (sub a b)
unfolding minus
minus_lem a b h k = in_range-done (2 ^ 63) (sub a b) h k

-- The values of the two branches of `diff` are in range.
diff_borrow-done :
    (start end : Timespec)
    → IsNormal start
    → IsNormal end
    → diff_borrow start end
      ≡ done (record {
        tv_sec = sub (sub end.tv_sec start.tv_sec) (pos 1);
        tv_nsec = sub (add giga end.tv_nsec) start.tv_nsec;
      })
unfolding diff_borrow
diff_borrow-done start end h k =
    let a = h.moderate in
    let b = k.moderate in
    let c = h.from_zero in
    let d = k.from_zero in
    let f = h.below_giga in
    let g = k.below_giga in
    let sec = minus_lem end.tv_sec start.tv_sec (ground arith) (ground arith) in
    let sec' = minus_lem (sub end.tv_sec start.tv_sec) (pos 1) (ground arith) (ground arith) in
    let nsec = plus_lem giga end.tv_nsec (ground arith) (ground arith) in
    let nsec' = minus_lem (add giga end.tv_nsec) start.tv_nsec (ground arith) (ground arith) in
    rw (sec, sec', nsec, nsec') refl

diff_plain-done :
    (start end : Timespec)
    → IsNormal start
    → IsNormal end
    → diff_plain start end
      ≡ done
          (record { tv_sec = sub end.tv_sec start.tv_sec; tv_nsec = sub end.tv_nsec start.tv_nsec })
unfolding diff_plain
diff_plain-done start end h k =
    let a = h.moderate in
    let b = k.moderate in
    let c = h.from_zero in
    let d = k.from_zero in
    let f = h.below_giga in
    let g = k.below_giga in
    let sec = minus_lem end.tv_sec start.tv_sec (ground arith) (ground arith) in
    let nsec = minus_lem end.tv_nsec start.tv_nsec (ground arith) (ground arith) in
    rw (sec, nsec) refl

-- Adding such a difference to the start gives the end.
add_borrow :
    (start end : Timespec)
    → IsNormal start
    → IsNormal end
    → leb_ℤ (sub end.tv_nsec start.tv_nsec) (negsuc 0) ≡ true
    → ts_add start (record {
      tv_sec = sub (sub end.tv_sec start.tv_sec) (pos 1);
      tv_nsec = sub (add giga end.tv_nsec) start.tv_nsec;
    })
      ≡ done end
unfolding ts_add carry
add_borrow start end h k borrow =
    let a = h.moderate in
    let b = k.moderate in
    let c = h.from_zero in
    let d = k.from_zero in
    let f = h.below_giga in
    let g = k.below_giga in
    let whole : add start.tv_sec (sub (sub end.tv_sec start.tv_sec) (pos 1))
        ≡ sub end.tv_sec (pos 1) =
      ground arith in
    let part : add start.tv_nsec (sub (add giga end.tv_nsec) start.tv_nsec) ≡ add giga end.tv_nsec =
      ground arith in
    let sec : plus start.tv_sec (sub (sub end.tv_sec start.tv_sec) (pos 1))
        ≡ done (sub end.tv_sec (pos 1)) =
      plus_lem start.tv_sec (sub (sub end.tv_sec start.tv_sec) (pos 1)) (rw whole (ground arith))
        (rw whole (ground arith))
      ∙ ap done whole in
    let nsec : plus start.tv_nsec (sub (add giga end.tv_nsec) start.tv_nsec)
        ≡ done (add giga end.tv_nsec) =
      plus_lem start.tv_nsec (sub (add giga end.tv_nsec) start.tv_nsec) (rw part (ground arith))
        (rw part (ground arith))
      ∙ ap done part in
    let over : leb_ℤ giga (add giga end.tv_nsec) ≡ true = ground arith in
    let back : add (sub end.tv_sec (pos 1)) (pos 1) ≡ end.tv_sec = ground arith in
    let rest : sub (add giga end.tv_nsec) giga ≡ end.tv_nsec = ground arith in
    let sec' : plus (sub end.tv_sec (pos 1)) (pos 1) ≡ done end.tv_sec =
      plus_lem (sub end.tv_sec (pos 1)) (pos 1) (rw back (omega arith)) (rw back (omega arith))
      ∙ ap done back in
    let nsec' : minus (add giga end.tv_nsec) giga ≡ done end.tv_nsec =
      minus_lem (add giga end.tv_nsec) giga (rw rest (omega arith)) (rw rest (omega arith))
      ∙ ap done rest in
    rw (sec, nsec, over, sec', nsec') refl

add_plain :
    (start end : Timespec)
    → IsNormal start
    → IsNormal end
    → ts_add start
        (record { tv_sec = sub end.tv_sec start.tv_sec; tv_nsec = sub end.tv_nsec start.tv_nsec })
      ≡ done end
unfolding ts_add
add_plain start end h k =
    let a = h.moderate in
    let b = k.moderate in
    let c = h.from_zero in
    let d = k.from_zero in
    let f = h.below_giga in
    let g = k.below_giga in
    let whole : add start.tv_sec (sub end.tv_sec start.tv_sec) ≡ end.tv_sec = ground arith in
    let part : add start.tv_nsec (sub end.tv_nsec start.tv_nsec) ≡ end.tv_nsec = ground arith in
    let sec : plus start.tv_sec (sub end.tv_sec start.tv_sec) ≡ done end.tv_sec =
      plus_lem start.tv_sec (sub end.tv_sec start.tv_sec) (rw whole (omega arith))
        (rw whole (omega arith))
      ∙ ap done whole in
    let nsec : plus start.tv_nsec (sub end.tv_nsec start.tv_nsec) ≡ done end.tv_nsec =
      plus_lem start.tv_nsec (sub end.tv_nsec start.tv_nsec) (rw part (omega arith))
        (rw part (omega arith))
      ∙ ap done part in
    let under : leb_ℤ giga end.tv_nsec ≡ false = ground arith in rw (sec, nsec, under) refl

-- For two times whose nanoseconds are within a second and whose seconds are less than 2^62 from 0,
-- no `long` overflows: the difference has nanoseconds within a second, and added to the first time
-- it gives the second. The first may be the later one.
pub ts_add-diff :
    (start end : Timespec)
    → IsNormal start
    → IsNormal end
    → (d : Timespec) × (diff start end ≡ done d)
      × (neg_part d.tv_nsec ≡ 0)
      × (pos_part d.tv_nsec < 1000000000)
      × (ts_add start d ≡ done end)
unfolding diff
ts_add-diff start end h k =
    let c = h.from_zero in
    let d = k.from_zero in
    let f = h.below_giga in
    let g = k.below_giga in
    let first = minus_lem end.tv_nsec start.tv_nsec (ground arith) (ground arith) in
    elim (Bool-cases (leb_ℤ (sub end.tv_nsec start.tv_nsec) (negsuc 0))) [
      | inl borrow ↦ (
        record {
          tv_sec = sub (sub end.tv_sec start.tv_sec) (pos 1);
          tv_nsec = sub (add giga end.tv_nsec) start.tv_nsec;
        },
        rw (first, borrow) (diff_borrow-done start end h k),
        ground arith,
        ground arith,
        add_borrow start end h k borrow,
      )
      | inr ordered ↦ (
        record { tv_sec = sub end.tv_sec start.tv_sec; tv_nsec = sub end.tv_nsec start.tv_nsec },
        rw (first, ordered) (diff_plain-done start end h k),
        ground arith,
        ground arith,
        add_plain start end h k,
      )
    ]

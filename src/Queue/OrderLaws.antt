-- ===== src/Queue/OrderLaws.antt =====
-- The order of the queue is the given one, group by group.
use claudeq.Prelude.{
  ◌≡◌, refl, sym, ap, ◌∙◌, Bool, true, false, not, ◌&&◌, ◌||◌, List, [], ◌∷◌, ◌++◌, Text, ◌==◌, any,
  keep_if, All, if◌then◌else◌, arith, text_eq_iff, text_eq_refl, inl, inr, Bool-cases,
}
use mathlib.Core.List.{append-nil, Perm, perm_middle}
use mathlib.Core.List.Perm
use claudeq.Task.Model.{Task}
use claudeq.Queue.Order.{blocks_from, block_order, of_group, in_blocks, grouped_order}

abbrev mem : Text → List Text → Bool
mem g gs = any (λ h. h == g) gs

mem_same : (h g : Text) (gs : List Text) → (h == g) ≡ true → mem h gs ≡ mem g gs
mem_same h g gs e = ap (λ x. mem x gs) ((text_eq_iff h g).0 e)

-- No group stands in the list twice.
unfoldable distinct : List Text → Bool
unfolding any
distinct [] = true
distinct (g ∷ gs) = not (mem g gs) && distinct gs

of_group-append :
    (g : Text) (xs ys : List Task) → of_group g (xs ++ ys) ≡ of_group g xs ++ of_group g ys
unfolding of_group keep_if
of_group-append g [] ys = refl
of_group-append g (x ∷ xs) ys = ground (arith, of_group-append g xs ys)

of_group-of_group :
    (g h : Text) (ts : List Task)
    → of_group g (of_group h ts) ≡ (if h == g then of_group g ts else [])
unfolding of_group keep_if
of_group-of_group g h [] = ground arith
of_group-of_group g h (t ∷ ts) =
    ground (
      arith,
      text_eq_iff t.group g,
      text_eq_iff t.group h,
      text_eq_iff h g,
      of_group-of_group g h ts,
    )

of_group-in_blocks :
    (g : Text) (gs : List Text) (ts : List Task)
    → distinct gs ≡ true
    → of_group g (in_blocks gs ts) ≡ (if mem g gs then of_group g ts else [])
unfolding in_blocks distinct any
of_group-in_blocks g [] ts d = refl
of_group-in_blocks g (h ∷ gs) ts d = rw (of_group-append g (of_group h ts) (in_blocks gs ts)) (
    rw (of_group-of_group g h ts) (
      rw (of_group-in_blocks g gs ts (ground (arith, d))) (elim (Bool-cases (h == g)) [
        | inl e ↦
            let gone : mem g gs ≡ false = sym (mem_same h g gs e) ∙ ground (arith, d) in
            rw e (rw gone (append-nil (of_group g ts)))
        | inr e ↦ rw e refl
      ])))

mem-blocks_from :
    (g : Text) (seen : List Text) (ts : List Task)
    → mem g (blocks_from seen ts) ≡ (not (mem g seen) && any (λ t. t.group == g) ts)
unfolding any blocks_from
mem-blocks_from g seen [] = ground arith
mem-blocks_from g seen (t ∷ ts) = ground (
  arith,
  mem-blocks_from g seen ts,
  mem-blocks_from g (t.group ∷ seen) ts,
  mem_same t.group g seen,
)

blocks_from-distinct : (seen : List Text) (ts : List Task) → distinct (blocks_from seen ts) ≡ true
unfolding distinct blocks_from
blocks_from-distinct seen [] = refl
blocks_from-distinct seen (t ∷ ts) = ground (
  arith,
  mem-blocks_from t.group (t.group ∷ seen) ts,
  text_eq_refl t.group,
  blocks_from-distinct seen ts,
  blocks_from-distinct (t.group ∷ seen) ts,
)

of_group-none :
    (g : Text) (ts : List Task) → any (λ t. t.group == g) ts ≡ false → of_group g ts ≡ []
unfolding any of_group keep_if
of_group-none g [] e = refl
of_group-none g (t ∷ ts) e = ground (arith, of_group-none g ts)

-- Grouping the queue changes no group: each has its tasks, in their order.
pub of_group-grouped_order :
    (g : Text) (ts : List Task) → of_group g (grouped_order ts) ≡ of_group g ts
unfolding grouped_order block_order
of_group-grouped_order g ts =
    of_group-in_blocks g (blocks_from [] ts) ts (blocks_from-distinct [] ts)
    ∙ ground (arith, mem-blocks_from g [] ts, of_group-none g ts)

-- Two filters that exclude each other split the elements that pass one of them.
keep_if_apart :
    (p q : Task → Bool) (ts : List Task)
    → ((t : Task) → p t ≡ true → q t ≡ false)
    → Perm (keep_if p ts ++ keep_if q ts) (keep_if (λ t. p t || q t) ts)
unfolding keep_if
keep_if_apart p q [] h = Perm.refl []
keep_if_apart p q (t ∷ ts) h = elim (Bool-cases (p t)) [
  | inl e ↦ simp (e, h t e) (Perm.cons t (keep_if_apart p q ts h))
  | inr e ↦ elim (Bool-cases (q t)) [
    | inl f ↦
        simp (e, f)
          (Perm.trans (perm_middle (keep_if p ts) (keep_if q ts))
            (Perm.cons t (keep_if_apart p q ts h)))
    | inr f ↦ simp (e, f) (keep_if_apart p q ts h)
  ]
]

perm_of_eq : {xs ys : List Task} → xs ≡ ys → Perm xs ys
perm_of_eq {ys = us} e = rw e (Perm.refl us)

keep_if_same :
    (p q : Task → Bool) (ts : List Task) → ((t : Task) → p t ≡ q t) → keep_if p ts ≡ keep_if q ts
unfolding keep_if
keep_if_same p q [] h = refl
keep_if_same p q (t ∷ ts) h = ground (arith, h t, keep_if_same p q ts h)

keep_if_none : (ts : List Task) → keep_if (λ t. mem t.group []) ts ≡ []
unfolding keep_if any
keep_if_none [] = refl
keep_if_none (t ∷ ts) = keep_if_none ts

keep_if-All : (p : Task → Bool) (ts : List Task) → All (λ t. p t ≡ true) ts → keep_if p ts ≡ ts
unfolding keep_if
keep_if-All p [] h = refl
keep_if-All p (t ∷ ts) h = rw (h.0) (ap (λ us. t ∷ us) (keep_if-All p ts h.1))

eq_sym : (g h : Text) → (g == h) ≡ (h == g)
eq_sym g h = ground (arith, text_eq_iff g h, text_eq_iff h g)

in_blocks-perm :
    (gs : List Text) (ts : List Task)
    → distinct gs ≡ true
    → Perm (in_blocks gs ts) (keep_if (λ t. mem t.group gs) ts)
unfolding in_blocks distinct any of_group
in_blocks-perm [] ts d = rw (keep_if_none ts) (Perm.refl [])
in_blocks-perm (g ∷ gs) ts d =
    Perm.trans (Perm.append_left (of_group g ts) (in_blocks-perm gs ts (ground (arith, d)))) (
      Perm.trans
        (keep_if_apart (λ t. t.group == g) (λ t. mem t.group gs) ts
          (λ t e. mem_same t.group g gs e ∙ ground (arith, d)))
        (perm_of_eq (
          keep_if_same (λ t. t.group == g || mem t.group gs) (λ t. g == t.group || mem t.group gs)
            ts (λ t. ap (λ b. b || mem t.group gs) (eq_sym t.group g)))))

group_seen_more :
    (t : Task) (ts us : List Task)
    → All (λ u. any (λ v. v.group == u.group) ts ≡ true) us
    → All (λ u. any (λ v. v.group == u.group) (t ∷ ts) ≡ true) us
unfolding any
group_seen_more t ts [] h = tt
group_seen_more t ts (u ∷ us) h = (ground (arith, h.0), group_seen_more t ts us h.1)

group_seen : (ts : List Task) → All (λ u. any (λ v. v.group == u.group) ts ≡ true) ts
unfolding any
group_seen [] = tt
group_seen (t ∷ ts) =
    (ground (arith, text_eq_refl t.group), group_seen_more t ts ts (group_seen ts))

block_seen :
    (ts us : List Task)
    → All (λ u. any (λ v. v.group == u.group) ts ≡ true) us
    → All (λ u. mem u.group (blocks_from [] ts) ≡ true) us
unfolding any
block_seen ts [] h = tt
block_seen ts (u ∷ us) h = (mem-blocks_from u.group [] ts ∙ h.0, block_seen ts us h.1)

-- The queue that grouping gives has the same tasks.
pub grouped_order-perm : (ts : List Task) → Perm (grouped_order ts) ts
unfolding grouped_order block_order
grouped_order-perm ts =
    Perm.trans (in_blocks-perm (blocks_from [] ts) ts (blocks_from-distinct [] ts)) (
      perm_of_eq
        (keep_if-All (λ t. mem t.group (blocks_from [] ts)) ts (block_seen ts ts (group_seen ts))))

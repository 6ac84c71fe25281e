-- ===== src/Db/WorkOrders/Search/Sorted.antt =====
-- The order of a search, described without its comparisons.
use Prim.Native.Nat.{compare, Ordering, lt, eq, gt}
use go_cmms.Base.{
  ◌≡◌, ◌≤◌, ◌<◌, ◌⊎◌, refl, sym, Bool, true, false, ◌||◌, Option, none, some, List, [], ◌∷◌, arith,
  inl, inr, Bool-cases, if◌then◌else◌,
}
use go_cmms.Base.Lists.{All}
use go_cmms.Base.Maps.{Map, lookup}
use go_cmms.Base.Sort.{Comparison, is_le, or_next, nulls_last}
use go_cmms.Base.Sort.Laws.{IsSorted}
use go_cmms.Text.{Text, codes, text_eq, text_key}
use go_cmms.Models.{Time}
use go_cmms.Db.{WorkOrderRow}
use go_cmms.Db.WorkOrders.Order.{
  Column, columns, directed, newest_first, by_column, by_sort, row_order,
}

-- What a row is sorted by first: nothing, a text or a time.
pub data SortKey : Type 0 where
  missing : SortKey
  words : Text → SortKey
  instant : Time → SortKey

abbrev pub words_or : Option Text → SortKey
words_or none = missing
words_or (some t) = words t

abbrev pub instant_or : Option Time → SortKey
instant_or none = missing
instant_or (some t) = instant t

-- The columns that a search can name, and what each gives of a row.
abbrev pub sort_keys : Map Text (WorkOrderRow → SortKey)
sort_keys =
    (codes "custom_id", λ o. words_or o.custom_id)
    ∷ (codes "due_date", λ o. instant_or o.due_date)
    ∷ (codes "created_at", λ o. instant o.created_at)
    ∷ (codes "updated_at", λ o. instant o.updated_at)
    ∷ (codes "priority", λ o. words o.priority)
    ∷ (codes "status", λ o. words o.status)
    ∷ (codes "title", λ o. words o.title)
    ∷ []

abbrev pub key_by : Option (WorkOrderRow → SortKey) → WorkOrderRow → SortKey
key_by none o = missing
key_by (some f) o = f o

-- The key for a column and a direction: nothing if either is not known.
abbrev pub sort_key : Option Text → Text → WorkOrderRow → SortKey
sort_key none dir o = missing
sort_key (some field) dir o =
    if text_eq dir (codes "ASC") || text_eq dir (codes "DESC")
    then key_by (lookup field sort_keys) o
    else missing

-- Newer, or as new and with an id as great.
abbrev pub IsNewer : WorkOrderRow → WorkOrderRow → Type 0
IsNewer a b = (b.created_at < a.created_at) ⊎ ((a.created_at ≡ b.created_at) × (b.id ≤ a.id))

module _ (collate : Comparison Text) where
  -- The one key comes before the other, upwards or downwards; a missing one comes last in both.
  abbrev pub KeyBefore : Bool → SortKey → SortKey → Type 0
  KeyBefore asc missing k = ⊥
  KeyBefore asc (words s) missing = Unit
  KeyBefore asc (instant s) missing = Unit
  KeyBefore true (words s) (words t) = collate s t ≡ lt
  KeyBefore false (words s) (words t) = collate t s ≡ lt
  KeyBefore true (instant s) (instant t) = s < t
  KeyBefore false (instant s) (instant t) = t < s
  KeyBefore asc (words s) (instant t) = ⊥
  KeyBefore asc (instant s) (words t) = ⊥

  abbrev pub KeyTied : Bool → SortKey → SortKey → Type 0
  KeyTied asc missing missing = Unit
  KeyTied asc missing (words t) = ⊥
  KeyTied asc missing (instant t) = ⊥
  KeyTied asc (words s) missing = ⊥
  KeyTied asc (instant s) missing = ⊥
  KeyTied true (words s) (words t) = collate s t ≡ eq
  KeyTied false (words s) (words t) = collate t s ≡ eq
  KeyTied asc (instant s) (instant t) = s ≡ t
  KeyTied asc (words s) (instant t) = ⊥
  KeyTied asc (instant s) (words t) = ⊥

  -- One row may stand before another: by its key, or with a tied key by being newer.
  abbrev pub Precedes : Option Text → Text → WorkOrderRow → WorkOrderRow → Type 0
  Precedes field dir a b =
      let up = text_eq dir (codes "ASC") in
      KeyBefore up (sort_key field dir a) (sort_key field dir b)
      ⊎ (KeyTied up (sort_key field dir a) (sort_key field dir b) × IsNewer a b)

  -- Every row may stand before all the later ones.
  abbrev pub InOrder : Option Text → Text → List WorkOrderRow → Type 0
  InOrder field dir [] = Unit
  InOrder field dir (o ∷ rows) = All (Precedes field dir o) rows × InOrder field dir rows

  -- A comparison of two rows agrees with their keys.
  abbrev Agrees : Bool → SortKey → SortKey → Ordering → Type 0
  Agrees asc k l o = (o ≡ lt → KeyBefore asc k l) × (o ≡ eq → KeyTied asc k l)

  words-Agrees :
      (asc : Bool) (f : WorkOrderRow → Text) (a b : WorkOrderRow)
      → Agrees asc (words (f a)) (words (f b)) (by_column collate asc (some (Column.text f)) a b)
  words-Agrees true f a b = ((λ e. e), (λ e. e))
  words-Agrees false f a b = ((λ e. e), (λ e. e))

  instant-Agrees :
      (asc : Bool) (f : WorkOrderRow → Time) (a b : WorkOrderRow)
      → Agrees asc
          (instant (f a))
          (instant (f b))
          (by_column collate asc (some (Column.time f)) a b)
  instant-Agrees true f a b = ((λ e. ground arith), (λ e. ground arith))
  instant-Agrees false f a b = ((λ e. ground arith), (λ e. ground arith))

  null_text-Agrees :
      (asc : Bool) (f : WorkOrderRow → Option Text) (a b : WorkOrderRow)
      → Agrees asc
          (words_or (f a))
          (words_or (f b))
          (by_column collate asc (some (Column.null_text f)) a b)
  null_text-Agrees asc f a b = agree asc (f a) (f b)
    where
      agree :
          (asc : Bool) (s t : Option Text)
          → Agrees asc (words_or s) (words_or t) (nulls_last (directed asc collate) s t)
      agree asc none none = ((λ e. absurd (ground arith)), (λ e. tt))
      agree asc none (some t) = ((λ e. absurd (ground arith)), (λ e. absurd (ground arith)))
      agree asc (some s) none = ((λ e. tt), (λ e. absurd (ground arith)))
      agree true (some s) (some t) = ((λ e. e), (λ e. e))
      agree false (some s) (some t) = ((λ e. e), (λ e. e))

  null_time-Agrees :
      (asc : Bool) (f : WorkOrderRow → Option Time) (a b : WorkOrderRow)
      → Agrees asc
          (instant_or (f a))
          (instant_or (f b))
          (by_column collate asc (some (Column.null_time f)) a b)
  null_time-Agrees asc f a b = agree asc (f a) (f b)
    where
      agree :
          (asc : Bool) (s t : Option Time)
          → Agrees asc (instant_or s) (instant_or t) (nulls_last (directed asc compare) s t)
      agree asc none none = ((λ e. absurd (ground arith)), (λ e. tt))
      agree asc none (some t) = ((λ e. absurd (ground arith)), (λ e. absurd (ground arith)))
      agree asc (some s) none = ((λ e. tt), (λ e. absurd (ground arith)))
      agree true (some s) (some t) = ((λ e. ground arith), (λ e. ground arith))
      agree false (some s) (some t) = ((λ e. ground arith), (λ e. ground arith))

  -- A column and a key agree on all rows.
  abbrev Matches : Option Column → Option (WorkOrderRow → SortKey) → Type 0
  Matches c k =
      (asc : Bool) (a b : WorkOrderRow)
      → Agrees asc (key_by k a) (key_by k b) (by_column collate asc c a b)

  abbrev Paired : Map Text Column → Map Text (WorkOrderRow → SortKey) → Type 0
  Paired [] [] = Unit
  Paired [] (k ∷ ks) = ⊥
  Paired (c ∷ cs) [] = ⊥
  Paired ((f, c) ∷ cs) ((g, k) ∷ ks) = (f ≡ g) × Matches (some c) (some k) × Paired cs ks

  lookup-Matches :
      (field : Text) (cs : Map Text Column) (ks : Map Text (WorkOrderRow → SortKey))
      → Paired cs ks
      → Matches (lookup field cs) (lookup field ks)
  unfolding lookup
  lookup-Matches field [] [] p = λ asc a b. ((λ e. absurd (ground arith)), (λ e. tt))
  lookup-Matches field [] (k ∷ ks) p = absurd p
  lookup-Matches field (c ∷ cs) [] p = absurd p
  lookup-Matches field ((f, c) ∷ cs) ((g, k) ∷ ks) (same, m, rest) =
      elim (Bool-cases (text_eq f field)) [
        | inl e ↦
            let e' : text_eq g field ≡ true = rw (sym same) e in λ asc a b. rw e (rw e' (m asc a b))
        | inr e ↦
            let e' : text_eq g field ≡ false = rw (sym same) e in
            λ asc a b. rw e (rw e' (lookup-Matches field cs ks rest asc a b))
      ]

  columns-Paired : Paired columns sort_keys
  unfolding columns
  columns-Paired = (
    refl,
    (λ asc. null_text-Agrees asc (λ o. o.custom_id)),
    (
      refl,
      (λ asc. null_time-Agrees asc (λ o. o.due_date)),
      (
        refl,
        (λ asc. instant-Agrees asc (λ o. o.created_at)),
        (
          refl,
          (λ asc. instant-Agrees asc (λ o. o.updated_at)),
          (
            refl,
            (λ asc. words-Agrees asc (λ o. o.priority)),
            (
              refl,
              (λ asc. words-Agrees asc (λ o. o.status)),
              (refl, (λ asc. words-Agrees asc (λ o. o.title)), tt),
            ),
          ),
        ),
      ),
    ),
  )

  by_sort-Agrees :
      (field : Option Text) (dir : Text) (a b : WorkOrderRow)
      → Agrees
          (text_eq dir (codes "ASC"))
          (sort_key field dir a)
          (sort_key field dir b)
          (by_sort collate field dir a b)
  unfolding by_sort
  by_sort-Agrees none dir a b = ((λ e. absurd (ground arith)), (λ e. tt))
  by_sort-Agrees (some field) dir a b =
      let m = lookup-Matches field columns sort_keys columns-Paired in
      elim (Bool-cases (text_eq dir (codes "ASC"))) [
        | inl e ↦ rw e (m true a b)
        | inr e ↦ elim (Bool-cases (text_eq dir (codes "DESC"))) [
          | inl d ↦ rw e (rw d (m false a b))
          | inr d ↦ rw e (rw d ((λ x. absurd (ground arith)), (λ x. tt)))
        ]
      ]

  or_next_le :
      (x y : Ordering) → is_le (or_next x y) ≡ true → (x ≡ lt) ⊎ ((x ≡ eq) × (is_le y ≡ true))
  or_next_le lt y e = inl refl
  or_next_le eq y e = inr (refl, e)
  or_next_le gt y e = absurd (ground arith)

  newest_first-IsNewer : (a b : WorkOrderRow) → is_le (newest_first a b) ≡ true → IsNewer a b
  newest_first-IsNewer a b e = ground arith

  row_order-Precedes :
      (field : Option Text) (dir : Text) (a b : WorkOrderRow)
      → is_le (row_order collate field dir a b) ≡ true
      → Precedes field dir a b
  unfolding row_order
  row_order-Precedes field dir a b e =
      let (before, tied) = by_sort-Agrees field dir a b in
      elim (or_next_le (by_sort collate field dir a b) (newest_first a b) e) [
        | inl x ↦ inl (before x)
        | inr (x, y) ↦ inr (tied x, newest_first-IsNewer a b y)
      ]

  pub row_order-InOrder :
      (field : Option Text) (dir : Text) (rows : List WorkOrderRow)
      → IsSorted (row_order collate field dir) rows
      → InOrder field dir rows
  row_order-InOrder field dir [] s = tt
  row_order-InOrder field dir (o ∷ rows) (a, s) = (later rows a, row_order-InOrder field dir rows s)
    where
      later :
          (rest : List WorkOrderRow)
          → All (λ r. is_le (row_order collate field dir o r) ≡ true) rest
          → All (Precedes field dir o) rest
      later [] h = tt
      later (r ∷ rest) (p, h) = (row_order-Precedes field dir o r p, later rest h)

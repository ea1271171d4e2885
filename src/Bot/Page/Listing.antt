-- ===== src/Bot/Page/Listing.antt =====
-- What each page of client/bot/view.go shows of a listing.
use mathlib.Core.List.{flatten, append_assoc, append-nil}
use seshat_tasks.Prelude.{
  ℕ, zero, suc, ◌+◌, ◌-◌, ◌≤◌, ◌<◌, length, length-append, take_all, take, get_elem?, some, List,
  [], ◌∷◌, ◌++◌, ◌≡◌, ◌≢◌, refl, sym, ap, subst, ◌∙◌, arith, inl, inr, All,
}
use seshat_tasks.Prelude.Int.{pos}
use seshat_tasks.Bot.View.{Row, Group}
use seshat_tasks.Bot.Page.{
  fill_page, clamp_page, taken, dropped, page_start, page_end, slice, paginate,
}
use seshat_tasks.Bot.Page.Bounds.{total, paginate-eq}
use seshat_tasks.Bot.Page.Chunks.{
  starts_of, chunks, IsPage, flatten-chunks, chunks-IsPage, page_breaks-starts_of, cut, cut-chunk,
}

length-flatten : (gs : List Group) → length (flatten gs) ≡ total gs
unfolding flatten total
length-flatten [] = refl
length-flatten (g ∷ gs) = omega (arith, length-append g (flatten gs), length-flatten gs)

taken_all :
    (rows : List Row) (g : Group)
    → length rows + length g ≤ 25
    → (taken rows g ≡ g) × (dropped rows g ≡ 0)
unfolding taken dropped
taken_all rows g h = ground arith

-- Groups with room for all of them.
fill_page-fits :
    (rows : List Row) (gs : List Group)
    → length rows + total gs ≤ 25
    → fill_page rows 0 gs ≡ (rows ++ flatten gs, 0)
unfolding fill_page flatten total
fill_page-fits rows [] h = ap (λ xs. (xs, 0)) (sym (append-nil rows))
fill_page-fits rows (g ∷ gs) h =
    let (all, nothing) = taken_all rows g (omega arith) in
    rw (all, nothing)
      (fill_page-fits (rows ++ g) gs (omega (arith, length-append rows g))
        ∙ ap (λ xs. (xs, 0)) (append_assoc rows g (flatten gs)))

taken_first : (g : Group) → (taken [] g ≡ take 25 g) × (dropped [] g ≡ length g - 25)
unfolding taken dropped
taken_first g = ground (arith, take_all 25 g)

-- What a page shows of its groups.
fill_page-IsPage :
    (c : List Group) → IsPage c → fill_page [] 0 c ≡ (take 25 (flatten c), total c - 25)
fill_page-IsPage [] (some_group, few, fits) = absurd (omega arith)
fill_page-IsPage c (some_group, few, inl small) =
    fill_page-fits [] c (omega arith)
    ∙ ap (λ xs. (xs, 0)) (sym (take_all 25 (flatten c) (omega (arith, length-flatten c))))
    ∙ ap (λ k. (take 25 (flatten c), k)) (omega arith)
fill_page-IsPage (g ∷ []) (some_group, few, inr alone) =
    unfold fill_page flatten total in
    (rw (append-nil g, (taken_first g).0, (taken_first g).1)
      (ap (λ k. (take 25 g, k)) (omega arith)))
fill_page-IsPage (g ∷ h ∷ gs) (some_group, few, inr alone) = absurd (omega arith)

clamp_page_self : (n count : ℕ) → n < count → clamp_page (pos n) count ≡ n
unfolding clamp_page
clamp_page_self n count h = ground arith

length-starts_of : (s : ℕ) (cs : List (List Group)) → length (starts_of s cs) ≡ length cs
unfolding starts_of
length-starts_of s [] = refl
length-starts_of s (c ∷ cs) = omega (arith, length-starts_of (s + length c) cs)

get_elem?-lt :
    (n : ℕ) (c : List Group) (cs : List (List Group)) → get_elem? cs n ≡ some c → n < length cs
get_elem?-lt n c [] h = absurd (cc h)
get_elem?-lt zero c (d ∷ cs) h = omega arith
get_elem?-lt (suc n) c (d ∷ cs) h = omega (arith, get_elem?-lt n c cs h)

get_elem?-All :
    (n : ℕ) (c : List Group) (cs : List (List Group))
    → All IsPage cs
    → get_elem? cs n ≡ some c
    → IsPage c
get_elem?-All n c [] all h = absurd (cc h)
get_elem?-All zero c (d ∷ cs) all h = subst IsPage (cc h) all.0
get_elem?-All (suc n) c (d ∷ cs) all h = get_elem?-All n c cs all.1 h

some_groups :
    (n : ℕ) (c : List Group)
    → (groups : List Group) → get_elem? (chunks groups) n ≡ some c
    → groups ≢ []
unfolding chunks
some_groups n c [] found e = absurd (cc found)
some_groups n c (g ∷ gs) found e = absurd (cc e)

-- The pages of a listing, one after the other, have its groups in their order, each on one page. A
-- page has at most 5 groups, of at most 25 rows in all, which it shows in full; or it has one larger
-- group alone, of which it shows the first 25 rows and counts the others. This is so for every page
-- number below the count of the pages.
pub paginate-chunks :
    (groups : List Group) (n : ℕ) (c : List Group)
    → get_elem? (chunks groups) n ≡ some c
    → (flatten (chunks groups) ≡ groups)
      × IsPage c
      × (paginate groups (pos n) ≡ record {
        rows = take 25 (flatten c);
        index = n;
        count = length (chunks groups);
        overflow = total c - 25;
      })
paginate-chunks groups n c found = (flatten-chunks groups, page, shown)
  where
    page : IsPage c
    page = get_elem?-All n c (chunks groups) (chunks-IsPage groups) found

    cut_here : cut 0 (chunks groups) n (length groups) groups ≡ c
    cut_here =
        subst (λ (x : List Group). cut 0 (chunks groups) n (length x) x ≡ c) (flatten-chunks groups)
          (subst (λ k. cut 0 (chunks groups) n k (flatten (chunks groups)) ≡ c) (omega arith)
            (cut-chunk [] (chunks groups) n c found))

    piece :
        slice
          (page_start (starts_of 0 (chunks groups)) n)
          (page_end (starts_of 0 (chunks groups)) n (length groups))
          groups
        ≡ c
    piece = unfold cut in cut_here

    shown : paginate groups (pos n) ≡ record {
      rows = take 25 (flatten c);
      index = n;
      count = length (chunks groups);
      overflow = total c - 25;
    }
    shown =
        paginate-eq groups (pos n) (some_groups n c groups found)
        ∙ rw
            (
              page_breaks-starts_of groups,
              length-starts_of 0 (chunks groups),
              clamp_page_self n (length (chunks groups)) (get_elem?-lt n c (chunks groups) found),
              piece,
              fill_page-IsPage c page,
            )
            refl

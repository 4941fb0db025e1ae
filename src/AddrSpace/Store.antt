-- ===== src/AddrSpace/Store.antt =====
-- insert_region and remove_region on a well-formed list.
use aurora_os.Prelude.{
  ℕ, ◌≡◌, ◌∙◌, refl, sym, arith, List, [], ◌∷◌, ◌++◌, All, length, leb_iff, length-append,
  get_elem?, some, take-append_length, drop-append_length,
}
use aurora_os.Container.Vec.{get_elem?-middle, drop-middle}
use aurora_os.Container.VecMap.{BinarySearch}
use aurora_os.AddrSpace.{MappedRegion, Outcome, ok, err, panic, invalid_address}
use aurora_os.AddrSpace.Regions.{
  ◌>>=◌, MappedRegionStorage, StorageLaws, spliced, cut, insert_region, remove_region,
  binary_search_address,
}
use aurora_os.AddrSpace.IsWf.{first, past, IsRegion, IsWf, Free}
use aurora_os.AddrSpace.Order.{
  Finds, at, between, SearchLaws, IsWfFrom-InOrder, IsWfFrom-drop, IsWfFrom-insert, Free-other,
  InOrder-unique, not_absent, Before, After,
}

spliced-middle :
    (pre post : List MappedRegion) (r : MappedRegion)
    → spliced (length pre) r (pre ++ post) ≡ pre ++ (r ∷ post)
spliced-middle pre post r = rw (take-append_length pre post, drop-append_length pre post) refl

cut-middle :
    (pre post : List MappedRegion) (r : MappedRegion)
    → cut (length pre) (pre ++ (r ∷ post)) ≡ pre ++ post
cut-middle pre post r = rw (take-append_length pre (r ∷ post), drop-middle pre post r) refl

-- The list `new` is `old` with one more region at an index.
pub record Adds (region : MappedRegion) (old new : List MappedRegion) (index : ℕ) : Type 0 where
  pub pre : List MappedRegion
  pub post : List MappedRegion
  pub at_index : index ≡ length pre
  pub was : old ≡ pre ++ post
  pub becomes : new ≡ pre ++ (region ∷ post)
  pub keeps_wf : IsWf new

pub Adds-get_elem? :
    {n : MappedRegion} {old new : List MappedRegion} {index : ℕ}
    → Adds n old new index
    → get_elem? new index ≡ some n
Adds-get_elem? {n} a = rw (a.becomes, a.at_index) (get_elem?-middle a.pre a.post n)

module _ {T : Type 0} ⦃st : MappedRegionStorage T⦄ (t : T) where
  -- The result of an insertion: an error of the storage, or one more region.
  abbrev pub Inserts : MappedRegion → Outcome (ℕ × T) → Type 0
  Inserts n (ok (index, t')) = Adds n (st.regions t) (st.regions t') index
  Inserts n (err e) = Unit
  Inserts n panic = ⊥

  -- A removal: the region of the address goes, or there is none.
  pub data Removes (address : ℕ) : Outcome (MappedRegion × T) → Type 0 where
    removed :
        (n : MappedRegion) (t' : T) (index : ℕ)
        → n.address ≡ address
        → Adds n (st.regions t') (st.regions t) index
        → IsWf (st.regions t')
        → Removes address (ok (n, t'))
    absent :
        All (λ (r : MappedRegion). ¬ (r.address ≡ address)) (st.regions t)
        → Removes address (err (invalid_address address))

module _ {T : Type 0} ⦃bs : BinarySearch MappedRegion⦄ (search : SearchLaws bs)
    ⦃st : MappedRegionStorage T⦄ (laws : StorageLaws T st) (t : T) (wf : IsWf (st.regions t)) where
  located : (k : ℕ) → Finds k (st.regions t) (binary_search_address k (st.regions t))
  unfolding binary_search_address
  located k = search.finds k (st.regions t) (IsWfFrom-InOrder 0 _ wf)

  inserted :
      (n : MappedRegion) (pre post : List MappedRegion) (r : Outcome T)
      → st.insert (length pre) n t ≡ r
      → st.regions t ≡ pre ++ post
      → IsWf (pre ++ (n ∷ post))
      → Inserts t n (r >>= λ t'. ok (length pre, t'))
  inserted n pre post (ok t') e split w =
      let becomes : st.regions t' ≡ pre ++ (n ∷ post) =
        laws.insert_splices (length pre) n t t' e ∙ rw split (spliced-middle pre post n) in
      record {
        pre = pre;
        post = post;
        at_index = refl;
        was = split;
        becomes = becomes;
        keeps_wf = rw becomes w;
      }
  inserted n pre post (err _) e split w = tt
  inserted n pre post panic e split w = absurd (
      laws.insert_returns (length pre) n t
        (rw split ((leb_iff _ _).1 (omega (arith, length-append pre post)))) e)

  pub insert_region-Inserts :
      (n : MappedRegion)
      → IsRegion n
      → Free (first n) (past n) (st.regions t)
      → Inserts t n (insert_region n t)
  unfolding insert_region
  insert_region-Inserts n wn free = elim (located n.address) [
    | at pre post r e split same ↦
        absurd (Free-other 0 n r pre post wn (rw split at wf) (rw split at free) same)
    | between pre post e split b a ↦
        rw (insert_region, e)
          (inserted n pre post (st.insert (length pre) n t) refl split
            (IsWfFrom-insert 0 n pre post wn (rw split at wf) (rw split at free) (omega arith) b a))
  ]

  pub remove_region-Removes : (address : ℕ) → Removes t address (remove_region address t)
  unfolding remove_region
  remove_region-Removes address = elim (located address) [
    | at pre post r e split same ↦
        let (t', removal, rest) =
          laws.remove_cuts (length pre) r t (rw split (get_elem?-middle pre post r)) in
        let kept : st.regions t' ≡ pre ++ post = rest ∙ rw split (cut-middle pre post r) in
        rw (remove_region, e, removal)
          (Removes.removed r t' (length pre) same
            (record {
              pre = pre;
              post = post;
              at_index = refl;
              was = kept;
              becomes = split;
              keeps_wf = wf;
            })
            (rw kept (IsWfFrom-drop 0 pre post r (rw split at wf))))
    | between pre post e split b a ↦
        rw (remove_region, e) (Removes.absent (rw split (none_at pre post b a)))
  ]
    where
      none_at :
          (pre post : List MappedRegion)
          → Before address pre
          → After address post
          → All (λ (r : MappedRegion). ¬ (r.address ≡ address)) (pre ++ post)
      none_at [] [] b a = tt
      none_at [] (r ∷ post) b (lt, a) = (λ e. absurd (omega (arith, lt, e)), none_at [] post b a)
      none_at (r ∷ pre) post (lt, b) a = (λ e. absurd (omega (arith, lt, e)), none_at pre post b a)

  -- Of a list with one more region, the removal of its address leaves the list.
  pub remove_added :
      (n : MappedRegion) (index : ℕ) (old : List MappedRegion)
      → Adds n old (st.regions t) index
      → (t' : T) × (remove_region n.address t ≡ ok (n, t')) × (st.regions t' ≡ old)
  remove_added n index old a =
      restored (remove_region n.address t) refl (remove_region-Removes n.address)
    where
      restored :
          (r : Outcome (MappedRegion × T))
          → remove_region n.address t ≡ r
          → Removes t n.address r
          → (t' : T) × (remove_region n.address t ≡ ok (n, t')) × (st.regions t' ≡ old)
      restored r e (removed n' t' index' same b w) =
          let order = rw a.becomes at (IsWfFrom-InOrder 0 _ wf) in
          let (one, rest) =
            InOrder-unique a.pre a.post b.pre b.post n n' order (sym a.becomes ∙ b.becomes)
              (sym same) in
          (t', e ∙ rw (← one) refl, b.was ∙ sym rest ∙ sym a.was)
      restored r e (absent none_there) =
          absurd (not_absent n.address a.pre a.post n (rw a.becomes at none_there) refl)

-- ===== src/Gameplay/Search/Loop.antt =====
-- The search visits exactly the linked cells, each once, and 238 rounds are enough.
use puzzle_bubble.Prelude.{
  ℕ, zero, suc, ◌+◌, ◌≤◌, ◌≡◌, refl, sym, ap, ◌∙◌, ◌↔◌, ◌⊎◌, inl, inr, arith, Bool, true,
  Bool-cases, some, List, [], ◌∷◌, ◌++◌, foldl, length, ◌∈◌, Distinct, mem-append, Distinct-concat,
  length-le_of_Distinct, length-append,
}
use mathlib.Core.List.{append_assoc, append-nil}
use puzzle_bubble.Gameplay.Grid.{Pos, in_board, neighbors, cells}
use puzzle_bubble.Gameplay.Grid.Laws.{eq_pos_iff, mem-cells, length-cells}
use puzzle_bubble.Gameplay.Search.{Search, contains, start, offer, expand, run}
use puzzle_bubble.Gameplay.Search.Linked.{Linked, source, next}

pub contains_iff : (ps : List Pos) (p : Pos) → (contains ps p ≡ true) ↔ (p ∈ ps)
unfolding contains
contains_iff [] p = (λ h. absurd (cc), λ m. absurd m)
contains_iff (q ∷ qs) p = ground (arith, eq_pos_iff q p, contains_iff qs p)

List-cases : (ps : List Pos) → (ps ≡ []) ⊎ ((p : Pos) × (rest : List Pos) × (ps ≡ p ∷ rest))
List-cases [] = inl refl
List-cases (p ∷ ps) = inr (p, ps, refl)

pub last_eq : (q n : Pos) → q ∈ (n ∷ []) → q ≡ n
last_eq q n (inl e) = e
last_eq q n (inr h) = absurd h

module _ (admits : Pos → Bool) (sources : List Pos) where
  -- What holds between the steps of the inner loop: `vis` lists the expanded cells and then the
  -- queue, without repetition, and all of it is linked to a source.
  pub record Marks (s : Search) : Type 0 where
    pub whole : s.vis ≡ s.group ++ s.queue
    pub distinct : Distinct s.vis
    pub begun : (p : Pos) → p ∈ sources → p ∈ s.vis
    pub sound : (p : Pos) → p ∈ s.vis → Linked admits sources p

  -- What one pass over a list of neighbours does to the marks.
  record Extends (s : Search) (ns : List Pos) (t : Search) : Type 0 where
    group : t.group ≡ s.group
    kept : (p : Pos) → p ∈ s.vis → p ∈ t.vis
    added : (n : Pos) → n ∈ ns → admits n ≡ true → n ∈ t.vis

  offer-Marks :
      (s : Search) (p n : Pos) → Marks s → p ∈ s.vis → n ∈ neighbors p → Marks (offer admits s n)
  unfolding offer
  offer-Marks s p n m hp hn = elim (Bool-cases (admits n)) [
    | inr shut ↦ rw shut m
    | inl ok ↦ elim (Bool-cases (contains s.vis n)) [
      | inl old ↦ rw (ok, old) m
      | inr new ↦
          rw (ok, new)
            (record {
              whole =
                  ap (λ (l : List Pos). l ++ n ∷ []) m.whole
                  ∙ append_assoc s.group s.queue (n ∷ []);
              distinct =
                  Distinct-concat s.vis n m.distinct
                    (λ h. ground (arith, (contains_iff s.vis n).1 h));
              begun = λ q h. (mem-append q s.vis (n ∷ [])).1 (inl (m.begun q h));
              sound = λ q h. elim ((mem-append q s.vis (n ∷ [])).0 h) [
                | inl before ↦ m.sound q before
                | inr last ↦ rw (last_eq q n last) (next (m.sound p hp) hn ok)
              ];
            })
    ]
  ]

  offer-Extends : (s : Search) (n : Pos) → Extends s (n ∷ []) (offer admits s n)
  unfolding offer
  offer-Extends s n = record {
    group = ground arith;
    kept = λ p h. ground (arith, (mem-append p s.vis (n ∷ [])).1 (inl h));
    added = λ p h ok.
        let e = last_eq p n h in
        let ok' : admits n ≡ true = rw (← e) ok in
        rw e (ground (arith, (contains_iff s.vis n).0, (mem-append n s.vis (n ∷ [])).1));
  }

  -- The inner loop over part of the neighbours of `p`.
  scan-Marks :
      (p : Pos) (ns : List Pos) (s : Search)
      → Marks s
      → p ∈ s.vis
      → ((n : Pos) → n ∈ ns → n ∈ neighbors p)
      → Marks (foldl (offer admits) s ns) × Extends s ns (foldl (offer admits) s ns)
  scan-Marks p [] s m hp near =
      (m, record { group = refl; kept = λ q h. h; added = λ n h ok. absurd h })
  scan-Marks p (n ∷ ns) s m hp near =
      let one = offer-Extends s n in
      let (m', rest) =
        scan-Marks p ns (offer admits s n) (offer-Marks s p n m hp (near n (inl refl)))
          (one.kept p hp) (λ q h. near q (inr h)) in
      (
        m',
        record {
          group = rest.group ∙ one.group;
          kept = λ q h. rest.kept q (one.kept q h);
          added = λ q h ok. elim h [
            | inl e ↦ rest.kept q (one.added q (inl e) ok)
            | inr later ↦ rest.added q later ok
          ];
        },
      )

  -- Between the rounds: every admitted neighbour of an expanded cell is marked.
  pub record Inv (s : Search) : Type 0 where
    pub marks : Marks s
    pub closed : (p q : Pos) → p ∈ s.group → q ∈ neighbors p → admits q ≡ true → q ∈ s.vis

  Inv-expand :
      (s : Search) (p : Pos) (rest : List Pos)
      → s.queue ≡ p ∷ rest
      → Inv s
      → Inv (expand admits s p rest) × ((expand admits s p rest).group ≡ s.group ++ p ∷ [])
  unfolding expand
  Inv-expand s p rest e i =
      let s' : Search = record s { queue = rest; group = s.group ++ p ∷ [] } in
      let all : s.vis ≡ s'.group ++ rest =
        i.marks.whole ∙ rw e (sym (append_assoc s.group (p ∷ []) rest)) in
      let here : p ∈ s.vis = rw all (
        (mem-append p s'.group rest).1
          (inl ((mem-append p s.group (p ∷ [])).1 (inr (inl refl))))) in
      let m : Marks s' = record {
        whole = all;
        distinct = i.marks.distinct;
        begun = i.marks.begun;
        sound = i.marks.sound;
      } in
      let (m', ext) = scan-Marks p (neighbors p) s' m here (λ n h. h) in
      (
        record {
          marks = m';
          closed = λ a q ha hq ok. elim ((mem-append a s.group (p ∷ [])).0 (rw ext.group at ha)) [
            | inl old ↦ ext.kept q (i.closed a q old hq ok)
            | inr last ↦ ext.added q (rw (last_eq a p last) at hq) ok
          ];
        },
        ext.group,
      )

  -- The sources and the admitted cells lie on the board.
  pub record Bounded : Type 0 where
    pub start_in : (p : Pos) → p ∈ sources → in_board p ≡ true
    pub admits_in : (p : Pos) → admits p ≡ true → in_board p ≡ true

  pub Linked-in_board : Bounded → {p : Pos} → Linked admits sources p → in_board p ≡ true
  Linked-in_board h (source m) = h.start_in _ m
  Linked-in_board h (next r n ok) = h.admits_in _ ok

  vis-le-cells : Bounded → (s : Search) → Marks s → length s.vis ≤ 238
  vis-le-cells h s m = omega (
    arith,
    length-cells,
    length-le_of_Distinct s.vis cells m.distinct
        (λ p v. (mem-cells p).1 (Linked-in_board h (m.sound p v))),
  )

  -- What the search returns: each linked cell once.
  pub record Found (t : Search) : Type 0 where
    pub distinct : Distinct t.group
    pub visited : t.vis ≡ t.group
    pub exact : (p : Pos) → (p ∈ t.group) ↔ Linked admits sources p

  Inv-Found : (s : Search) → Inv s → s.queue ≡ [] → Found s
  Inv-Found s i e =
      let same : s.vis ≡ s.group = i.marks.whole ∙ rw e (append-nil s.group) in
      record {
        distinct = rw same at i.marks.distinct;
        visited = same;
        exact = λ p. (λ m. i.marks.sound p (rw same m), λ r. reached s i same r);
      }
    where
      reached :
          (t : Search) → Inv t → t.vis ≡ t.group → {p : Pos} → Linked admits sources p → p ∈ t.group
      reached t j same (source m) = rw (← same) (j.marks.begun _ m)
      reached t j same (next {p} {q} r n ok) = rw (← same) (j.closed p q (reached t j same r) n ok)

  pub run-Found :
      (fuel : ℕ) (s : Search)
      → Bounded
      → Inv s
      → 238 ≤ fuel + length s.group
      → (t : Search) × (run admits fuel s ≡ some t) × Found t
  unfolding run
  run-Found zero s h i f = elim (List-cases s.queue) [
    | inl e ↦ (s, ground arith, Inv-Found s i e)
    | inr (p, rest, e) ↦ absurd (
        omega (
          arith,
          vis-le-cells h s i.marks,
          ap length i.marks.whole,
          length-append s.group s.queue,
          ap length e,
        ))
  ]
  run-Found (suc fuel) s h i f = elim (List-cases s.queue) [
    | inl e ↦ (s, ground arith, Inv-Found s i e)
    | inr (p, rest, e) ↦
        let (i', grown) = Inv-expand s p rest e i in
        let (t, runs, found) =
          run-Found fuel (expand admits s p rest) h i'
            (omega (arith, ap length grown, length-append s.group (p ∷ []))) in
        (t, rw (e, run) runs, found)
  ]

-- From distinct sources on the board 238 rounds are enough, one for each cell of the board.
pub start-Found :
    (admits : Pos → Bool) (sources : List Pos)
    → Bounded admits sources
    → Distinct sources
    → (t : Search) × (run admits 238 (start sources) ≡ some t) × Found admits sources t
unfolding start
start-Found admits sources h d =
    run-Found admits sources 238 (start sources) h
      (record {
        marks = record { whole = refl; distinct = d; begun = λ p m. m; sound = λ p m. source m };
        closed = λ p q m. absurd m;
      })
      (omega arith)

-- ===== src/Executor/Topo/Edges.antt =====
-- What the first loop of `compute_topo_levels` records: in-degrees and successors.
use ansible_playbooks.Common.{ℕ, ◌+◌, ◌<◌, String, ◌≡◌, List, [], ◌∷◌, ◌++◌, arith, length, get_or}
use ansible_playbooks.Common.{count, ◌==◌, leb, if◌then◌else◌, get_or-set, length-set}
use ansible_playbooks.Common.{count-append, inl, inr, Bool-cases}
use ansible_playbooks.Common.Results.{ok}
use ansible_playbooks.Executor.Topo.{Graph, add_edge, add_deps}

abbrev pub degree : Graph → ℕ → ℕ
degree g j = get_or g.in_degree j 0

abbrev pub successors_of : Graph → ℕ → List ℕ
successors_of g d = get_or g.successors d []

-- Both tables have `n` rows.
pub record Sized (n : ℕ) (g : Graph) : Type 0 where
  pub degrees : length g.in_degree ≡ n
  pub edges : length g.successors ≡ n

module _ (n i dep : ℕ) (g : Graph) (sized : Sized n g) (hi : i < n) (hd : dep < n) where
  add_edge-Sized : Sized n (add_edge i dep g)
  unfolding add_edge
  add_edge-Sized = omega (arith, sized, length-set g.in_degree i, length-set {0} g.successors dep)

  degree-add_edge : (j : ℕ) → degree (add_edge i dep g) j ≡ degree g j + (if j == i then 1 else 0)
  unfolding add_edge
  degree-add_edge j = ground (arith, get_or-set g.in_degree i j (degree g i + 1) 0, sized.degrees)

  count-add_edge :
      (j d : ℕ)
      → count j (successors_of (add_edge i dep g) d)
        ≡ count j (successors_of g d) + (if j == i then (if d == dep then 1 else 0) else 0)
  unfolding add_edge
  count-add_edge j d = ground (
    arith,
    get_or-set g.successors dep d (successors_of g dep ++ (i ∷ [])) [],
    count-append j (successors_of g dep) (i ∷ []),
    sized.edges,
  )

-- `g'` is `g` with the dependencies `ds` of node `i`.
pub record Adds (n i : ℕ) (ds : List ℕ) (g g' : Graph) : Type 0 where
  pub sized : Sized n g'
  pub in_range : (d : ℕ) → 0 < count d ds → d < n
  pub degrees : (j : ℕ) → degree g' j ≡ degree g j + (if j == i then length ds else 0)
  pub edges :
      (j d : ℕ)
      → count j (successors_of g' d)
        ≡ count j (successors_of g d) + (if j == i then count d ds else 0)

module _ (n i : ℕ) (hint : String) (hi : i < n) where
  pub add_deps-Adds :
      (ds : List ℕ) (g g' : Graph) → Sized n g → add_deps n i hint ds g ≡ ok g' → Adds n i ds g g'
  unfolding add_deps
  add_deps-Adds [] g g' sized e = record {
    sized = ground arith;
    in_range = λ d h. absurd (omega arith);
    degrees = λ j. ground arith;
    edges = λ j d. ground arith;
  }
  add_deps-Adds (dep ∷ ds) g g' sized e = elim (Bool-cases (leb n dep)) [
    | inl out ↦ absurd (ground arith)
    | inr within ↦
        let hd : dep < n = ground arith in
        let rest =
          add_deps-Adds ds (add_edge i dep g) g' (add_edge-Sized n i dep g sized hi hd)
            (rw within at e) in
        record {
          sized = rest.sized;
          in_range = λ d h. ground (arith, rest.in_range d);
          degrees = λ j. ground (arith, rest.degrees j, degree-add_edge n i dep g sized hi hd j);
          edges = λ j d. ground (arith, rest.edges j d, count-add_edge n i dep g sized hi hd j d);
        }
  ]

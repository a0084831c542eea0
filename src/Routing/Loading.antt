-- ===== src/Routing/Loading.antt =====
-- What loading a map makes of its lines.
use sop.Prelude.{
  ℕ, zero, suc, ◌-◌, ◌<◌, ◌≡◌, refl, sym, ap, ◌∙◌, List, [], ◌∷◌, ◌++◌, arith, true, false, ◌&&◌,
  Option, none, some, length, get_elem?, ltb, >>=-eq-some, some-eq, Bool-cases, inl, inr,
  along_some, append_assoc, append-nil, length-append,
}
use sop.Routing.{
  max_n, max_path, max_routes, Packet, Matrix, Config, Line, no_colon, route, set_edge, link,
  add_nodes, load_lines, load_config,
}

get_elem?-append_left :
    (xs ys : List ℕ) (i : ℕ) → i < length xs → get_elem? (xs ++ ys) i ≡ get_elem? xs i
get_elem?-append_left [] ys i lt = elim lt [ ]
get_elem?-append_left (x ∷ xs) ys zero lt = refl
get_elem?-append_left (x ∷ xs) ys (suc i) lt = get_elem?-append_left xs ys i (omega arith)

-- Just past a list stands what is appended.
get_elem?-append_end : (xs : List ℕ) (y i : ℕ) → length xs ≡ i → get_elem? (xs ++ y ∷ []) i ≡ some y
get_elem?-append_end [] y zero e = refl
get_elem?-append_end [] y (suc i) e = cc
get_elem?-append_end (x ∷ xs) y zero e = cc
get_elem?-append_end (x ∷ xs) y (suc i) e = get_elem?-append_end xs y i (omega arith)

pub get_elem?-lt : (xs : List ℕ) (i a : ℕ) → get_elem? xs i ≡ some a → i < length xs
get_elem?-lt [] i a e = cc
get_elem?-lt (x ∷ xs) zero a e = omega arith
get_elem?-lt (x ∷ xs) (suc i) a e = omega (arith, get_elem?-lt xs i a e)

-- Every hop of the path has its edge.
abbrev pub Linked : Matrix → List ℕ → Type 0
Linked m path =
    (i a b : ℕ) → get_elem? path i ≡ some a → get_elem? path (suc i) ≡ some b → m a b ≡ true

-- No edge goes.
abbrev Keeps : Matrix → Matrix → Type 0
Keeps m m' = (a b : ℕ) → m a b ≡ true → m' a b ≡ true

link-Keeps :
    (m : Matrix) (prev : Option ℕ) (node : ℕ) (m' : Matrix)
    → link m prev node ≡ some m'
    → Keeps m m'
link-Keeps m none node m' e a b h = rw (sym (some-eq e)) h
link-Keeps m (some p) node m' e a b h = elim (Bool-cases (ltb p max_n && ltb node max_n)) [
  | inl t ↦
      let q : some (set_edge m p node) ≡ some m' = rw t at e in
      let r : set_edge m p node a b ≡ true = ground (arith, h) in
      ap (λ f. f a b) (sym (some-eq q)) ∙ r
  | inr f ↦ absurd (let n : none ≡ some m' = rw f at e in cc)
]

link-edge :
    (m : Matrix) (p node : ℕ) (m' : Matrix) → link m (some p) node ≡ some m' → m' p node ≡ true
link-edge m p node m' e = elim (Bool-cases (ltb p max_n && ltb node max_n)) [
  | inl t ↦
      let q : some (set_edge m p node) ≡ some m' = rw t at e in
      let r : set_edge m p node p node ≡ true = ground arith in
      ap (λ f. f p node) (sym (some-eq q)) ∙ r
  | inr f ↦ absurd (let n : none ≡ some m' = rw f at e in cc)
]

extend-Linked :
    (m : Matrix) (path : List ℕ) (node : ℕ) (m' : Matrix)
    → link m (get_elem? path (length path - 1)) node ≡ some m'
    → Linked m path
    → Linked m' (path ++ node ∷ [])
extend-Linked m path node m' e h i a b ea eb = elim (Bool-cases (ltb (suc i) (length path))) [
  | inl lt ↦ link-Keeps m (get_elem? path (length path - 1)) node m' e a b (
      h i a b (sym (get_elem?-append_left path (node ∷ []) i (ground arith)) ∙ ea)
        (sym (get_elem?-append_left path (node ∷ []) (suc i) (ground arith)) ∙ eb))
  | inr ge ↦
      let last : suc i ≡ length path =
        ground
          (arith, get_elem?-lt (path ++ node ∷ []) (suc i) b eb, length-append path (node ∷ [])) in
      let from : get_elem? path i ≡ some a =
        sym (get_elem?-append_left path (node ∷ []) i (omega (arith, last))) ∙ ea in
      let to : node ≡ b = some-eq (sym (get_elem?-append_end path node (suc i) (sym last)) ∙ eb) in
      let place : length path - 1 ≡ i = omega (arith, last) in
      rw (sym to) (
        link-edge m a node m' (
          ap (λ o. link m o node) (sym from)
          ∙ ap (λ k. link m (get_elem? path k) node) (sym place)
          ∙ e))
]

add_nodes_lem :
    (nodes : List ℕ) (p : Packet) (m : Matrix) (p' : Packet) (m' : Matrix)
    → add_nodes nodes p m ≡ some (p', m')
    → Linked m p.path
    → (p' ≡ record p { path = p.path ++ nodes }) × Keeps m m' × Linked m' (p.path ++ nodes)
unfolding add_nodes
add_nodes_lem [] p m p' m' e h =
    let q : (p, m) ≡ (p', m') = some-eq e in
    (
      sym (ap (λ t. t.0) q) ∙ ap (λ l. record p { path = l }) (sym (append-nil p.path)),
      (λ a b t. ap (λ t. t.1 a b) (sym q) ∙ t),
      rw (append-nil p.path) (rw (sym (ap (λ t. t.1) q)) h),
    )
add_nodes_lem (node ∷ nodes) p m p' m' e h = elim (Bool-cases (ltb (length p.path) max_path)) [
  | inl room ↦
      let (m1, linked, e1) =
        >>=-eq-some (link m (get_elem? p.path (length p.path - 1)) node)
          (λ m1. add_nodes nodes (record p { path = p.path ++ node ∷ [] }) m1) (rw room at e) in
      let (same, kept, good) =
        add_nodes_lem nodes (record p { path = p.path ++ node ∷ [] }) m1 p' m' e1
          (extend-Linked m p.path node m1 linked h) in
      let longer : (p.path ++ node ∷ []) ++ nodes ≡ p.path ++ node ∷ nodes =
        append_assoc p.path (node ∷ []) nodes in
      (
        same ∙ ap (λ l. record p { path = l }) longer,
        (λ a b t.
            kept a b (link-Keeps m (get_elem? p.path (length p.path - 1)) node m1 linked a b t)),
        rw (sym longer) good,
      )
  | inr full ↦ absurd (let n : none ≡ some (p', m') = rw full at e in cc)
]

-- The paths of the lines that have a colon.
abbrev pub paths : List Line → List (List ℕ)
paths [] = []
paths (no_colon ∷ ls) = paths ls
paths (route nodes message ∷ ls) = nodes ∷ paths ls

-- The routes stand at their start, with these paths, every hop of which has its edge.
abbrev pub Loaded : Matrix → List Packet → List (List ℕ) → Type 0
Loaded m [] [] = Unit
Loaded m (p ∷ ps) (l ∷ ls) = (p.path ≡ l) × (p.current_step ≡ 0) × Linked m l × Loaded m ps ls
Loaded m [] (l ∷ ls) = ⊥
Loaded m (p ∷ ps) [] = ⊥

Loaded-Keeps :
    (m m' : Matrix) (ps : List Packet) (ls : List (List ℕ))
    → Keeps m m'
    → Loaded m ps ls
    → Loaded m' ps ls
Loaded-Keeps m m' [] [] k h = tt
Loaded-Keeps m m' [] (l ∷ ls) k h = h
Loaded-Keeps m m' (p ∷ ps) [] k h = h
Loaded-Keeps m m' (p ∷ ps) (l ∷ ls) k (path, step, linked, rest) =
    (path, step, (λ i a b ea eb. k a b (linked i a b ea eb)), Loaded-Keeps m m' ps ls k rest)

Loaded-append :
    (m : Matrix) (ps : List Packet) (ls : List (List ℕ)) (p : Packet) (l : List ℕ)
    → Loaded m ps ls
    → (p.path ≡ l) × (p.current_step ≡ 0) × Linked m l
    → Loaded m (ps ++ p ∷ []) (ls ++ l ∷ [])
Loaded-append m [] [] p l h g = (g.0, g.1, g.2, tt)
Loaded-append m [] (k ∷ ls) p l h g = absurd h
Loaded-append m (q ∷ ps) [] p l h g = absurd h
Loaded-append m (q ∷ ps) (k ∷ ls) p l (path, step, linked, rest) g =
    (path, step, linked, Loaded-append m ps ls p l rest g)

load_lines_lem :
    (lines : List Line) (cfg cfg' : Config) (ls : List (List ℕ))
    → load_lines lines cfg ≡ some cfg'
    → Loaded cfg.matrix cfg.routes ls
    → Loaded cfg'.matrix cfg'.routes (ls ++ paths lines)
unfolding load_lines
load_lines_lem [] cfg cfg' ls e h =
    rw (append-nil ls) (along_some (λ c. Loaded c.matrix c.routes ls) e h)
load_lines_lem (no_colon ∷ lines) cfg cfg' ls e h = load_lines_lem lines cfg cfg' ls e h
load_lines_lem (route nodes message ∷ lines) cfg cfg' ls e h =
    elim (Bool-cases (ltb (length cfg.routes) max_routes)) [
      | inl room ↦
          let (pm, added, e1) =
            >>=-eq-some
              (add_nodes nodes (record { path = []; current_step = 0; message = message })
                cfg.matrix)
              (λ pm.
                load_lines lines (record cfg { routes = cfg.routes ++ pm.0 ∷ []; matrix = pm.1 }))
              (rw room at e) in
          let (same, kept, good) =
            add_nodes_lem nodes (record { path = []; current_step = 0; message = message })
              cfg.matrix pm.0 pm.1 added (λ i a b ea eb. cc) in
          rw (sym (append_assoc ls (nodes ∷ []) (paths lines))) (
            load_lines_lem lines (record cfg { routes = cfg.routes ++ pm.0 ∷ []; matrix = pm.1 })
              cfg' (ls ++ nodes ∷ []) e1
              (Loaded-append pm.1 cfg.routes ls pm.0 nodes
                (Loaded-Keeps cfg.matrix pm.1 cfg.routes ls kept h)
                (ap (λ q. q.path) same, ap (λ q. q.current_step) same, good)))
      | inr full ↦ absurd (let n : none ≡ some cfg' = rw full at e in cc)
    ]

-- If a map is loaded without a write outside an array: the routes are, in order, those of the lines
-- with a colon, each at its start with the path as written, and the matrix has an edge for every hop
-- of every path.
pub load_config_lem :
    (n : ℕ) (lines : List Line) (cfg : Config)
    → load_config n lines ≡ some cfg
    → Loaded cfg.matrix cfg.routes (paths lines)
unfolding load_config
load_config_lem n lines cfg e =
    load_lines_lem lines (record { n_provinces = n; routes = []; matrix = λ i j. false }) cfg [] e
      tt

load_lines-n_provinces :
    (lines : List Line) (cfg cfg' : Config)
    → load_lines lines cfg ≡ some cfg'
    → cfg'.n_provinces ≡ cfg.n_provinces
unfolding load_lines
load_lines-n_provinces [] cfg cfg' e = ap (λ c. c.n_provinces) (sym (some-eq e))
load_lines-n_provinces (no_colon ∷ lines) cfg cfg' e = load_lines-n_provinces lines cfg cfg' e
load_lines-n_provinces (route nodes message ∷ lines) cfg cfg' e =
    elim (Bool-cases (ltb (length cfg.routes) max_routes)) [
      | inl room ↦
          let (pm, added, e1) =
            >>=-eq-some
              (add_nodes nodes (record { path = []; current_step = 0; message = message })
                cfg.matrix)
              (λ pm.
                load_lines lines (record cfg { routes = cfg.routes ++ pm.0 ∷ []; matrix = pm.1 }))
              (rw room at e) in
          load_lines-n_provinces lines
            (record cfg { routes = cfg.routes ++ pm.0 ∷ []; matrix = pm.1 }) cfg' e1
      | inr full ↦ absurd (let n : none ≡ some cfg' = rw full at e in cc)
    ]

-- A loaded map has as many provinces as its first line says.
pub load_config-n_provinces :
    (n : ℕ) (lines : List Line) (cfg : Config)
    → load_config n lines ≡ some cfg
    → cfg.n_provinces ≡ n
unfolding load_config
load_config-n_provinces n lines cfg e =
    load_lines-n_provinces lines (record { n_provinces = n; routes = []; matrix = λ i j. false })
      cfg e

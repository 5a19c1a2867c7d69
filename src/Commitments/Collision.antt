-- ===== src/Commitments/Collision.antt =====
-- What a hash function does not rule out: two different members of two lists, hashed alike. The lists
-- are of what the code hashes for two given inputs.
use fair_cross.Prelude.{ℕ, ◌≡◌, inl, inr, refl, List, [], ◌∷◌, ◌++◌, All, Any, subst}
use fair_cross.Commitments.Bytes.{IsBytes, IsDigest}
use fair_cross.Commitments.Sha256.{Commitment, commit_raw_bytes, combine_nodes}

pub record Collision {A : Type 0} (hash_of : A → Commitment) (xs ys : List A) : Type 0 where
  pub first : A
  pub second : A
  pub from_first : Any (λ x. x ≡ first) xs
  pub from_second : Any (λ y. y ≡ second) ys
  pub different : ¬ (first ≡ second)
  pub same : hash_of first ≡ hash_of second

-- Of two lists of byte strings, to the same commitment.
abbrev pub LeafClash : List (List ℕ) → List (List ℕ) → Type 0
LeafClash = Collision commit_raw_bytes

-- Of two lists of pairs of nodes, to the same node.
abbrev pub NodeClash : List (Commitment × Commitment) → List (Commitment × Commitment) → Type 0
NodeClash = Collision (λ (p : Commitment × Commitment). combine_nodes p.0 p.1)

-- A collision of the hash function on byte strings, as the code can hold them.
abbrev pub LeafCollision : List (List ℕ) → List (List ℕ) → Type 0
LeafCollision xs ys = (c : LeafClash xs ys) × IsBytes c.first × IsBytes c.second

abbrev pub IsNodePair : Commitment × Commitment → Type 0
IsNodePair p = IsDigest p.0 × IsDigest p.1

-- One on pairs of nodes of 32 bytes.
abbrev pub NodeCollision : List (Commitment × Commitment) → List (Commitment × Commitment) → Type 0
NodeCollision xs ys = (c : NodeClash xs ys) × IsNodePair c.first × IsNodePair c.second

module _ {A : Type 0} where
  member_of : (P : A → Type 0) (x : A) (xs : List A) → All P xs → Any (λ y. y ≡ x) xs → P x
  member_of P x [] h k = absurd k
  member_of P x (y ∷ ys) h (inl e) = subst P e h.0
  member_of P x (y ∷ ys) h (inr k) = member_of P x ys h.1 k

  -- Both members have what all the members have.
  pub proper :
      (P : A → Type 0) {hash_of : A → Commitment} (xs ys : List A)
      → All P xs
      → All P ys
      → (c : Collision hash_of xs ys) → P c.first × P c.second
  proper P xs ys h k c =
      (member_of P c.first xs h c.from_first, member_of P c.second ys k c.from_second)

  append_left : (P : A → Type 0) (xs ys : List A) → Any P xs → Any P (xs ++ ys)
  append_left P [] ys h = absurd h
  append_left P (x ∷ xs) ys (inl h) = inl h
  append_left P (x ∷ xs) ys (inr h) = inr (append_left P xs ys h)

  append_right : (P : A → Type 0) (xs ys : List A) → Any P ys → Any P (xs ++ ys)
  append_right P [] ys h = h
  append_right P (x ∷ xs) ys h = inr (append_right P xs ys h)

  module _ {hash_of : A → Commitment} where
    -- Of two given members.
    pub collide :
        (x y : A) → ¬ (x ≡ y) → hash_of x ≡ hash_of y → Collision hash_of (x ∷ []) (y ∷ [])
    collide x y n h = record {
      first = x;
      second = y;
      from_first = inl refl;
      from_second = inl refl;
      different = n;
      same = h;
    }

    -- A collision of parts is one of the wholes.
    pub in_fronts :
        (xs us ys vs : List A) → Collision hash_of xs ys → Collision hash_of (xs ++ us) (ys ++ vs)
    in_fronts xs us ys vs c = record {
      first = c.first;
      second = c.second;
      from_first = append_left (λ x. x ≡ c.first) xs us c.from_first;
      from_second = append_left (λ y. y ≡ c.second) ys vs c.from_second;
      different = c.different;
      same = c.same;
    }

    pub in_rests :
        (xs us ys vs : List A) → Collision hash_of us vs → Collision hash_of (xs ++ us) (ys ++ vs)
    in_rests xs us ys vs c = record {
      first = c.first;
      second = c.second;
      from_first = append_right (λ x. x ≡ c.first) xs us c.from_first;
      from_second = append_right (λ y. y ≡ c.second) ys vs c.from_second;
      different = c.different;
      same = c.same;
    }

pub leaf_collision :
    (xs ys : List (List ℕ))
    → All IsBytes xs
    → All IsBytes ys
    → LeafClash xs ys
    → LeafCollision xs ys
leaf_collision xs ys h k c = let (p, q) = proper IsBytes xs ys h k c in (c, p, q)

pub node_collision :
    (xs ys : List (Commitment × Commitment))
    → All IsNodePair xs
    → All IsNodePair ys
    → NodeClash xs ys
    → NodeCollision xs ys
node_collision xs ys h k c = let (p, q) = proper IsNodePair xs ys h k c in (c, p, q)

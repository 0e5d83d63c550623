-- ===== src/Cache/QueryCache/Bounds.antt =====
-- app/cache/query_cache.py: what every operation keeps, over any sequence of requests.
use data_engineer.Prelude.{
  ℕ, ◌+◌, ◌≤◌, String, true, Option, none, some, [], ◌∷◌, ◌≡◌, refl, length, arith, eq_iff, leb,
  if-branch,
}
use data_engineer.Prelude.Dict
use data_engineer.Prelude.Dict.{
  Dict, Distinct, keys, contains, mem, put-Distinct, remove-Distinct, length-put, length-remove,
  contains-remove, put_new, contains-put, contains-get, get-contains, length-remove-le,
}
use data_engineer.Cache.Entry.{CachedQuery, Cache}
use data_engineer.Cache.QueryCache.{
  create, move_entry, move_to_end, pop_oldest, add_to_l1, hit, clear,
}

-- The first tier is within its bound, which is positive, and has no key twice.
pub record IsValid {F : Type 0} (c : Cache F) : Type 0 where
  pub positive : 1 ≤ c.l1_max_size
  pub bounded : length c.l1 ≤ c.l1_max_size
  pub distinct : Distinct (keys c.l1)

module _ {F : Type 0} where
  length-move_entry :
      (k : String) (o : Option (CachedQuery F)) (m : Dict (CachedQuery F))
      → Dict.get k m ≡ o
      → Distinct (keys m)
      → length (move_entry k o m) ≡ length m
  unfolding move_entry
  length-move_entry k none m h d = refl
  length-move_entry k (some entry) m h d = ground (
    arith,
    length-put k entry (Dict.remove k m),
    length-remove k m d,
    contains-remove k k m,
    eq_iff k k,
    get-contains k m entry h,
  )

  length-move_to_end :
      (k : String) (m : Dict (CachedQuery F))
      → Distinct (keys m)
      → length (move_to_end k m) ≡ length m
  unfolding move_to_end
  length-move_to_end k m = length-move_entry k (Dict.get k m) m refl

  move_entry-Distinct :
      (k : String) (o : Option (CachedQuery F)) (m : Dict (CachedQuery F))
      → Distinct (keys m)
      → Distinct (keys (move_entry k o m))
  unfolding move_entry
  move_entry-Distinct k none m d = d
  move_entry-Distinct k (some entry) m d =
      put-Distinct k entry (Dict.remove k m) (remove-Distinct k m d)

  pub move_to_end-Distinct :
      (k : String) (m : Dict (CachedQuery F))
      → Distinct (keys m)
      → Distinct (keys (move_to_end k m))
  unfolding move_to_end
  move_to_end-Distinct k m = move_entry-Distinct k (Dict.get k m) m

  contains-move_entry :
      (k : String) (o : Option (CachedQuery F)) (m : Dict (CachedQuery F))
      → contains k m ≡ true
      → contains k (move_entry k o m) ≡ true
  unfolding move_entry
  contains-move_entry k none m h = h
  contains-move_entry k (some entry) m h =
      ground (arith, contains-put k k entry (Dict.remove k m), eq_iff k k)

  contains-move_to_end :
      (k : String) (m : Dict (CachedQuery F))
      → contains k m ≡ true
      → contains k (move_to_end k m) ≡ true
  unfolding move_to_end
  contains-move_to_end k m = contains-move_entry k (Dict.get k m) m

  pop_oldest-Distinct :
      (m : Dict (CachedQuery F)) → Distinct (keys m) → Distinct (keys (pop_oldest m))
  unfolding pop_oldest
  pop_oldest-Distinct [] d = d
  pop_oldest-Distinct (e ∷ m) d = d.1

  length-pop_oldest :
      (m : Dict (CachedQuery F)) (n : ℕ) → 1 ≤ n → length m ≤ n → length (pop_oldest m) + 1 ≤ n
  unfolding pop_oldest
  length-pop_oldest [] n p h = omega arith
  length-pop_oldest (e ∷ m) n p h = omega arith

  insert-IsValid :
      (k : String) (entry : CachedQuery F) (m : Dict (CachedQuery F)) (c : Cache F)
      → 1 ≤ c.l1_max_size
      → length m + 1 ≤ c.l1_max_size
      → Distinct (keys m)
      → IsValid (record c { l1 = Dict.put k entry m })
  insert-IsValid k entry m c p l d = record {
    positive = p;
    bounded = ground (arith, length-put k entry m);
    distinct = put-Distinct k entry m d;
  }

  replace-IsValid :
      (k j : String) (entry : CachedQuery F) (c : Cache F)
      → contains j c.l1 ≡ true
      → IsValid c
      → IsValid (record c { l1 = move_to_end k (Dict.put j entry c.l1) })
  replace-IsValid k j entry c h v = record {
    positive = v.positive;
    bounded =
        let d = put-Distinct j entry c.l1 v.distinct in
        ground (
          arith,
          length-put j entry c.l1,
          length-move_to_end k (Dict.put j entry c.l1) d,
          v.bounded,
        );
    distinct =
        move_to_end-Distinct k (Dict.put j entry c.l1) (put-Distinct j entry c.l1 v.distinct);
  }

  -- An entry under its own identifier keeps the first tier valid.
  pub add_to_l1-IsValid :
      (k : String) (entry : CachedQuery F) (c : Cache F)
      → entry.cache_id ≡ k
      → IsValid c
      → IsValid (add_to_l1 k entry c)
  unfolding add_to_l1
  add_to_l1-IsValid k entry c own v =
      if-branch IsValid (contains k c.l1) _ _
        (λ known. replace-IsValid k entry.cache_id entry c (rw (own, known)) v)
        (λ new.
          if-branch IsValid (leb c.l1_max_size (length c.l1)) _ _
            (λ full.
              insert-IsValid k entry (pop_oldest c.l1) c v.positive
                (length-pop_oldest c.l1 c.l1_max_size v.positive v.bounded)
                (pop_oldest-Distinct c.l1 v.distinct))
            (λ room. insert-IsValid k entry c.l1 c v.positive (ground (arith, room)) v.distinct))

  pub hit-IsValid :
      (k : String) (entry : CachedQuery F) (c : Cache F)
      → Dict.get k c.l1 ≡ some entry
      → IsValid c
      → IsValid (hit k entry c).0
  unfolding hit
  hit-IsValid k entry c here v = record {
    positive = v.positive;
    bounded = ground (
      arith,
      v.bounded,
      length-move_to_end k c.l1 v.distinct,
      length-put k (record entry { hit_count = entry.hit_count + 1 }) (move_to_end k c.l1),
      contains-move_to_end k c.l1 (get-contains k c.l1 entry here),
    );
    distinct =
        put-Distinct k (record entry { hit_count = entry.hit_count + 1 }) (move_to_end k c.l1)
          (move_to_end-Distinct k c.l1 v.distinct);
  }

  pub clear-IsValid : (c : Cache F) → IsValid c → IsValid (clear c)
  unfolding clear
  clear-IsValid c v = record { positive = v.positive; bounded = omega arith; distinct = tt }

  pub create-IsValid : (n : ℕ) (threshold : F) → IsValid (create n threshold)
  unfolding create
  create-IsValid n threshold = record {
    positive = omega arith;
    bounded = omega arith;
    distinct = tt;
  }

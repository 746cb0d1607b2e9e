-- ===== src/Codegen/Generate/Runs.antt =====
-- What the loop over the elements of a tensor in simulator/src/pim_codegen/impl/fimdram.cpp emits for
-- one bank.
use kvc_pim.Base.{
  ℕ, zero, suc, ◌+◌, ◌<◌, ◌≡◌, List, if◌then◌else◌, ltb, ◌==◌, ◌-◌, ◌*◌, ◌/◌, refl, sym, ap, subst,
  ◌∙◌, ◌≢◌, Bool, true, false, not, ◌&&◌, ◌||◌, [], ◌++◌, arith,
}
use kvc_pim.DataSpace.Hash.{div_digit}
use kvc_pim.Codegen.Generate.{
  Elements, Collect, Access, collect, put_access, bank_of, flush, collect_all,
}

stays :
    (bank prev sid n : ℕ) → bank ≡ prev → sid + 1 < n → (not (bank == prev) || sid == n - 1) ≡ false
stays bank prev sid n e l = ground arith

leaves : (bank prev : ℕ) (b : Bool) → bank ≢ prev → (not (bank == prev) || b) ≡ true
leaves bank prev b e = ground arith

module _ {S : Type 0} (e : Elements S) where
  -- The accesses of consecutive elements put in, with the state of the allocation.
  abbrev pub put_all : ℕ → ℕ → S → List Access → List Access × S
  put_all zero sid place accesses = (accesses, place)
  put_all (suc rounds) sid place accesses =
      let allocated = e.allocate sid place in
      put_all rounds (sid + 1) allocated.1 (put_access e.next allocated.0.0 allocated.0.1 accesses)

  collect-same :
      (sid : ℕ) (c : Collect S)
      → bank_of e sid ≡ c.prev_bank_id
      → sid + 1 < e.n_spatial_elems
      → collect e sid c ≡ record c {
        accesses =
            put_access e.next (e.allocate sid c.place).0.0 (e.allocate sid c.place).0.1 c.accesses;
        place = (e.allocate sid c.place).1;
      }
  unfolding collect
  collect-same sid c b l =
      let put : Collect S = record c {
        accesses =
            put_access e.next (e.allocate sid c.place).0.0 (e.allocate sid c.place).0.1 c.accesses;
        place = (e.allocate sid c.place).1;
      } in
      ap
        (λ g.
          if g
          then record (flush e (record c { place = (e.allocate sid c.place).1 })) {
            prev_bank_id = bank_of e sid;
          }
          else record put { prev_bank_id = bank_of e sid })
        (stays (bank_of e sid) c.prev_bank_id sid e.n_spatial_elems b l)
      ∙ ap (λ b. record put { prev_bank_id = b }) b

  collect-new :
      (sid : ℕ) (c : Collect S)
      → bank_of e sid ≢ c.prev_bank_id
      → collect e sid c ≡ record {
        instructions =
            c.instructions ++ e.emit c.prev_bank_id (e.allocate sid c.place).1 c.accesses;
        prev_bank_id = bank_of e sid;
        accesses = [];
        place = (e.allocate sid c.place).1;
      }
  unfolding collect flush
  collect-new sid c b =
      ap
        (λ g.
          if g
          then record (flush e (record c { place = (e.allocate sid c.place).1 })) {
            prev_bank_id = bank_of e sid;
          }
          else record c {
            prev_bank_id = bank_of e sid;
            accesses =
                put_access e.next (e.allocate sid c.place).0.0 (e.allocate sid c.place).0.1
                  c.accesses;
            place = (e.allocate sid c.place).1;
          })
        (leaves (bank_of e sid) c.prev_bank_id (sid == e.n_spatial_elems - 1) b)

  collect_all-same :
      (rounds sid : ℕ) (c : Collect S)
      → e.single_bank ≡ false
      → ((i : ℕ) → i < rounds → bank_of e (sid + i) ≡ c.prev_bank_id)
      → sid + rounds < e.n_spatial_elems
      → collect_all e rounds sid c ≡ record c {
        accesses = (put_all rounds sid c.place c.accesses).0;
        place = (put_all rounds sid c.place c.accesses).1;
      }
  unfolding collect_all
  collect_all-same zero sid c s b l = refl
  collect_all-same (suc rounds) sid c s b l =
      let put : Collect S = record c {
        accesses =
            put_access e.next (e.allocate sid c.place).0.0 (e.allocate sid c.place).0.1 c.accesses;
        place = (e.allocate sid c.place).1;
      } in
      ap
        (λ g.
          if g && ltb 0 (sid / e.cols_per_bank)
          then flush e c
          else collect_all e rounds (sid + 1) (collect e sid c))
        s
      ∙ ap (collect_all e rounds (sid + 1)) (
          collect-same sid c
            (subst (λ k. bank_of e k ≡ c.prev_bank_id) {x = sid + 0} (omega arith)
              (b 0 (omega arith)))
            (omega arith))
      ∙ collect_all-same rounds (sid + 1) put s
          (λ i lt.
            subst (λ k. bank_of e k ≡ c.prev_bank_id) {x = sid + suc i} (omega arith)
              (b (suc i) (omega arith)))
          (omega arith)

  -- Where the allocation goes through all banks, the loop over the elements of a bank that is not the
  -- last, entered from another bank: first what was collected for that bank is emitted, and then the
  -- accesses of the elements after the bank's first one are collected. The access of the first element
  -- itself is in neither.
  pub collect_all-bank :
      (bank rest : ℕ) (c : Collect S)
      → e.single_bank ≡ false
      → e.cols_per_bank ≡ suc rest
      → bank + e.first_bank ≢ c.prev_bank_id
      → bank * suc rest + suc rest < e.n_spatial_elems
      → let first = e.allocate (bank * suc rest) c.place in
        let collected = put_all rest (bank * suc rest + 1) first.1 [] in
        collect_all e (suc rest) (bank * suc rest) c ≡ record {
          instructions = c.instructions ++ e.emit c.prev_bank_id first.1 c.accesses;
          prev_bank_id = bank + e.first_bank;
          accesses = collected.0;
          place = collected.1;
        }
  unfolding collect_all
  collect_all-bank bank rest c s cols b l =
      let sid : ℕ = bank * suc rest in
      let at : (i : ℕ) → i < suc rest → bank_of e (sid + i) ≡ bank + e.first_bank = λ i lt.
        ap (λ m. (sid + i) / m + e.first_bank) cols
        ∙ ap (λ m. m + e.first_bank) (div_digit bank i (suc rest) lt) in
      let at_first : bank_of e sid ≡ bank + e.first_bank =
        ap (bank_of e) {y = sid + 0} (omega arith) ∙ at 0 (omega arith) in
      let opened : Collect S = record {
        instructions =
            c.instructions ++ e.emit c.prev_bank_id (e.allocate sid c.place).1 c.accesses;
        prev_bank_id = bank + e.first_bank;
        accesses = [];
        place = (e.allocate sid c.place).1;
      } in
      ap
        (λ g.
          if g && ltb 0 (sid / e.cols_per_bank)
          then flush e c
          else collect_all e rest (sid + 1) (collect e sid c))
        s
      ∙ ap (collect_all e rest (sid + 1)) (
          collect-new sid c (λ q. b (sym at_first ∙ q))
          ∙ ap (λ p. record opened { prev_bank_id = p }) at_first)
      ∙ collect_all-same rest (sid + 1) opened s
          (λ i lt. ap (bank_of e) {y = sid + suc i} (omega arith) ∙ at (suc i) (omega arith))
          (omega arith)

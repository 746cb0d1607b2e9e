-- ===== src/KvTrace/Steps.antt =====
-- `generate_inference_step` over the contract of a placement policy
-- (simulator/src/frontend/impl/memory_trace/kv_cache_trace_generator.h).
use kvc_pim.Base.{
  ℕ, insert, List, Option, ◌++◌, get_elem?, get_elem?-append_left, get_elem?-append_right, length,
  length-append, ℤ, zero, suc, ◌+◌, ◌*◌, ◌≤◌, ◌<◌, ◌≡◌, refl, ap, ◌∙◌, some, arith, pos, int_key,
  sym, subst,
}
use native.Mathlib.Numerals.{unary_clauses}
use native.Mathlib.Decide.{ℕ_discrete}
use native.Mathlib.Nat.{suc-mul}
use kvc_pim.Dram.{Dram}
use kvc_pim.Dram.Decompose.{capacity}
use kvc_pim.Policy.Interface.{IkvCachePolicy, Contract}
use kvc_pim.KvTrace.{
  Trace, Generator, rows_for, kv_data_size, bank_traces, tokens_from, generate_kv_cache_read,
  generate_kv_cache_write, generate_inference_step, read_token, Op, read, write,
}
use kvc_pim.KvTrace.Rows.{IsDevice, IsRow, bank_traces_lem}

first_offset : (n i : ℕ) → 0 * n + i ≡ i
first_offset n i = omega arith

next_offset : (t n i len : ℕ) → len ≡ n → suc t * n + i ≡ len + (t * n + i)
next_offset t n i len e = omega (arith, e, suc-mul t n)

below_offset : (t k n i : ℕ) → t < k → i < n → t * n + i < k * n
below_offset t k n i h l = grind arith

module _ (policy : IkvCachePolicy) (banks : ℕ) (c : Contract policy banks) (dram : Dram)
    (d : IsDevice dram) (le : banks ≤ capacity dram.count (dram.bank_level + 1)) where
  open policy use {State, allocate_kv_cache_bank, get_kv_cache_bank}

  -- The generator stands before token `k`: the policy's state is valid, the device and the number of
  -- banks are the given ones, and every earlier token has a bank of the device.
  pub record Ready (g : Generator State) (k : ℕ) : Type 0 where
    pub valid : c.IsValid g.policy_state
    pub device : g.dram ≡ some dram
    pub bank_count : g.num_banks ≡ pos banks
    pub placed :
        (t : ℕ) → t < k → (b : ℕ) × (get_kv_cache_bank (pos t) g.policy_state ≡ pos b) × (b < banks)

  length-bank_traces :
      (op : Op) (g : Generator State) (b size : ℕ)
      → g.dram ≡ some dram
      → g.num_banks ≡ pos banks
      → b < banks
      → length (bank_traces op g.dram g.num_banks (pos b) size) ≡ rows_for size
  length-bank_traces op g b size e n h =
      ap (λ o. length (bank_traces op o g.num_banks (pos b) size)) e
      ∙ ap (λ m. length (bank_traces op (some dram) m (pos b) size)) n
      ∙ (bank_traces_lem op dram banks b size d h le).0

  read_token_lem :
      (g : Generator State) (t : ℤ) (b : ℕ)
      → get_kv_cache_bank t g.policy_state ≡ pos b
      → read_token policy g t ≡ bank_traces read g.dram g.num_banks (pos b) g.block_size
  unfolding read_token
  read_token_lem g t b e = rw (e, read_token)

  length-generate_kv_cache_read :
      (g : Generator State) (k rounds first : ℕ)
      → Ready g k
      → first + rounds ≤ k
      → length (generate_kv_cache_read policy g (tokens_from rounds first))
        ≡ rounds * rows_for g.block_size
  unfolding generate_kv_cache_read tokens_from
  length-generate_kv_cache_read g k zero first r h = omega arith
  length-generate_kv_cache_read g k (suc rounds) first r h =
      let p = r.placed first (omega arith) in
      length-append (read_token policy g (pos first))
        (generate_kv_cache_read policy g (tokens_from rounds (first + 1)))
      ∙ ap (λ n. n + length (generate_kv_cache_read policy g (tokens_from rounds (first + 1))))
          (ap length (read_token_lem g (pos first) p.0 p.1)
            ∙ length-bank_traces read g p.0 g.block_size r.device r.bank_count p.2)
      ∙ ap (λ n. rows_for g.block_size + n)
          (length-generate_kv_cache_read g k rounds (first + 1) r (omega arith))
      ∙ simp unary_clauses (omega arith)

  -- The operation `o` is of the given kind, on row `row` of the bank where the policy has the token.
  pub record OnToken (op : Op) (state : State) (token row : ℕ) (o : Option Trace) : Type 0 where
    pub bank : ℕ
    pub placed : get_kv_cache_bank (pos token) state ≡ pos bank
    pub addr : List ℕ
    pub made : o ≡ some (op, addr)
    pub in_row : IsRow dram bank row addr

  on_bank :
      (op : Op) (g : Generator State) (state : State) (token b size i : ℕ)
      → g.dram ≡ some dram
      → g.num_banks ≡ pos banks
      → b < banks
      → get_kv_cache_bank (pos token) state ≡ pos b
      → i < rows_for size
      → OnToken op state token i (get_elem? (bank_traces op g.dram g.num_banks (pos b) size) i)
  on_bank op g state token b size i e n h p l =
      let r = (bank_traces_lem op dram banks b size d h le).1 i l in
      record {
        bank = b;
        placed = p;
        addr = r.0;
        made =
            ap (λ o. get_elem? (bank_traces op o g.num_banks (pos b) size) i) e
            ∙ ap (λ m. get_elem? (bank_traces op (some dram) m (pos b) size) i) n
            ∙ r.1;
        in_row = r.2;
      }

  moved :
      (op : Op) (state : State) (t u row : ℕ) (o v : Option Trace)
      → t ≡ u
      → v ≡ o
      → OnToken op state t row o
      → OnToken op state u row v
  moved op state t u row o v e same h = record {
    bank = h.bank;
    placed = ap (λ n. get_kv_cache_bank (pos n) state) (sym e) ∙ h.placed;
    addr = h.addr;
    made = same ∙ h.made;
    in_row = h.in_row;
  }

  length-read_token :
      (g : Generator State) (k t : ℕ)
      → Ready g k
      → t < k
      → length (read_token policy g (pos t)) ≡ rows_for g.block_size
  length-read_token g k t r h =
      let p = r.placed t h in
      ap length (read_token_lem g (pos t) p.0 p.1)
      ∙ length-bank_traces read g p.0 g.block_size r.device r.bank_count p.2

  -- The reads of the tokens from `first` on: row `i` of the `t`-th of them.
  read_at :
      (g : Generator State) (k rounds first t i : ℕ)
      → Ready g k
      → first + rounds ≤ k
      → t < rounds
      → i < rows_for g.block_size
      → OnToken read g.policy_state (first + t) i (
          get_elem?
            (generate_kv_cache_read policy g (tokens_from rounds first))
            (t * rows_for g.block_size + i))
  unfolding generate_kv_cache_read tokens_from
  read_at g k zero first t i r h l li = absurd (omega arith)
  read_at g k (suc rounds) first zero i r h l li =
      let p = r.placed first (omega arith) in
      let o =
        on_bank read g g.policy_state first p.0 g.block_size i r.device r.bank_count p.2 p.1 li in
      let block = read_token policy g (pos first) in
      let size = length-read_token g k first r (omega arith) in
      moved read g.policy_state first (first + 0) i _ _ (omega arith)
        (ap (get_elem? (block ++ generate_kv_cache_read policy g (tokens_from rounds (first + 1))))
            (first_offset (rows_for g.block_size) i)
          ∙ get_elem?-append_left block _ i (omega (arith, size, li))
          ∙ ap (λ xs. get_elem? xs i) (read_token_lem g (pos first) p.0 p.1))
        o
  read_at g k (suc rounds) first (suc t) i r h l li =
      let block = read_token policy g (pos first) in
      let size = length-read_token g k first r (omega arith) in
      moved read g.policy_state (first + 1 + t) (first + suc t) i _ _ (omega arith)
        (get_elem?-append_right block _ (suc t * rows_for g.block_size + i)
          (t * rows_for g.block_size + i)
          (next_offset t (rows_for g.block_size) i (length block) size))
        (read_at g k rounds (first + 1) t i r (omega arith) (omega arith) li)

  -- What a write does when the policy answers a bank.
  write_lem :
      (g : Generator State) (t : ℤ) (size b : ℕ)
      → (allocate_kv_cache_bank size t g.policy_state).0 ≡ pos b
      → generate_kv_cache_write policy t size g ≡ (
        bank_traces write g.dram g.num_banks (pos b) size,
        record g {
          policy_state = (allocate_kv_cache_bank size t g.policy_state).1;
          token_to_bank = insert t b g.token_to_bank;
        },
      )
  unfolding generate_kv_cache_write
  write_lem g t size b e = rw (e, generate_kv_cache_write)

  -- A write for token `k` leaves the generator before token `k + 1`.
  write-Ready :
      (g : Generator State) (k size : ℕ)
      → Ready g k
      → let w = generate_kv_cache_write policy (pos k) size g in
        Ready w.1 (k + 1)
        × (length w.0 ≡ rows_for size)
        × ((i : ℕ) → i < rows_for size → OnToken write w.1.policy_state k i (get_elem? w.0 i))
        × (w.1.block_size ≡ g.block_size)
        × (kv_data_size w.1 ≡ kv_data_size g)
  write-Ready g k size r =
      let p = c.place size (pos k) g.policy_state r.valid in
      let after : Generator State = record g {
        policy_state = (allocate_kv_cache_bank size (pos k) g.policy_state).1;
        token_to_bank = insert (pos k) p.0 g.token_to_bank;
      } in
      let ready : Ready after (k + 1) = record {
        valid = p.4;
        device = r.device;
        bank_count = r.bank_count;
        placed = λ t h. elim (ℕ_discrete t k) [
          | yes e ↦ (p.0, ap (λ j. get_kv_cache_bank (pos j) after.policy_state) e ∙ p.3.found, p.2)
          | no ne ↦
              let q = r.placed t (omega arith) in
              (q.0, p.3.others (pos t) (λ e. ne (ground (arith, e))) ∙ q.1, q.2)
        ];
      } in
      subst
        (λ w.
          Ready w.1 (k + 1)
          × (length w.0 ≡ rows_for size)
          × ((i : ℕ) → i < rows_for size → OnToken write w.1.policy_state k i (get_elem? w.0 i))
          × (w.1.block_size ≡ g.block_size)
          × (kv_data_size w.1 ≡ kv_data_size g))
        (sym (write_lem g (pos k) size p.0 p.1))
        (
          ready,
          length-bank_traces write g p.0 size r.device r.bank_count p.2,
          λ i l.
              on_bank write g after.policy_state k p.0 size i r.device r.bank_count p.2 p.3.found l,
          refl,
          refl,
        )

  -- What the step for token `k` made, in which order: for each earlier token a block of reads, on row
  -- 0, 1, ... of the bank where the policy has that token, and then the writes, on those rows of the
  -- bank where the policy now has token `k`. Nothing else.
  pub record StepTraces (g after : Generator State) (k : ℕ) (traces : List Trace) : Type 0 where
    pub size : length traces ≡ k * rows_for g.block_size + rows_for (kv_data_size g)
    pub reads :
        (t i : ℕ)
        → t < k
        → i < rows_for g.block_size
        → OnToken read g.policy_state t i (get_elem? traces (t * rows_for g.block_size + i))
    pub writes :
        (i : ℕ)
        → i < rows_for (kv_data_size g)
        → OnToken write after.policy_state k i (get_elem? traces (k * rows_for g.block_size + i))

  -- Under a placement policy that keeps its contract, the inference step for token `k` leaves the
  -- generator ready for token `k + 1` with its sizes as they were, and makes for each token before `k`
  -- the reads of a block, row by row in the bank where the policy has it, and then the writes of token
  -- `k`, row by row in the bank that it now has; nothing else.
  pub generate_inference_step-Ready :
      (g : Generator State) (k : ℕ)
      → Ready g k
      → let r = generate_inference_step policy k g in
        Ready r.1 (k + 1)
        × StepTraces g r.1 k r.0
        × (r.1.block_size ≡ g.block_size)
        × (kv_data_size r.1 ≡ kv_data_size g)
  unfolding generate_inference_step
  generate_inference_step-Ready g k r =
      let w = write-Ready g k (kv_data_size g) r in
      let reads = generate_kv_cache_read policy g (tokens_from k 0) in
      let written = generate_kv_cache_write policy (pos k) (kv_data_size g) g in
      let n : length reads ≡ k * rows_for g.block_size =
        length-generate_kv_cache_read g k k 0 r (omega arith) in
      (
        w.0,
        record {
          size = length-append reads written.0 ∙ omega (arith, n, w.1);
          reads = λ t i h l.
              moved read g.policy_state (0 + t) t i _ _ (omega arith)
                (get_elem?-append_left reads written.0 (t * rows_for g.block_size + i) (
                  subst (λ m. t * rows_for g.block_size + i < m) (sym n)
                    (below_offset t k (rows_for g.block_size) i h l)))
                (read_at g k k 0 t i r (omega arith) h l);
          writes = λ i l.
              moved write written.1.policy_state k k i _ _ refl
                (get_elem?-append_right reads written.0 (k * rows_for g.block_size + i) i
                  (ap (λ m. m + i) (sym n)))
                (w.2 i l);
        },
        w.3,
        w.4,
      )

-- ===== src/Descriptors/Laws.antt =====
-- What the processor finds at the gates of kernel/idt.c.
use sros.Prelude.{
  ℕ, zero, suc, ◌||◌, if◌then◌else◌, ◌+◌, ◌*◌, ◌/◌, ◌%◌, ◌^◌, ◌<◌, ◌≡◌, refl, sym, ap, ◌∙◌, ◌≢◌,
  Bool, true, false, List, [], ◌∷◌, arith, ◌==◌, length, get_or, length-set, get_or-set_self,
  get_or-set_ne, Bool-cases, inl, inr, replicate, length-replicate,
}
use mathlib.Core.Path.{subst}
use sros.Task.Chain.{has}
use sros.Descriptors.{IdtEntry, idt_set_gate, no_gate, kernel_vectors, set_gates, idt_init}

-- What the processor finds at a gate: the handler's address, its code segment, and the attributes.
pub record Leads (g : IdtEntry) (handler attr : ℕ) : Type 0 where
  pub offset : g.offset_low + g.offset_high * 65536 ≡ handler
  pub segment : g.selector ≡ 0x08
  pub attributes : g.type_attr ≡ attr

-- The gate that `idt_set_gate` writes for the kernel's code segment.
abbrev gate : ℕ → ℕ → IdtEntry
gate handler attr = record {
  offset_low = handler % 65536;
  selector = 0x08;
  zero_byte = 0;
  type_attr = attr;
  offset_high = handler / 65536 % 65536;
}

gate-Leads : (handler attr : ℕ) → handler < 2 ^ 32 → Leads (gate handler attr) handler attr
gate-Leads handler attr h = record { offset = omega arith; segment = refl; attributes = refl }

module _ (handler attr : ℕ) (idt : List IdtEntry) where
  gate_self :
      (v : ℕ)
      → v < length idt
      → get_or (idt_set_gate v handler 0x08 attr idt) v no_gate ≡ gate handler attr
  unfolding idt_set_gate
  gate_self v h = get_or-set_self idt v (gate handler attr) no_gate h

  gate_ne :
      (u v : ℕ)
      → u ≢ v
      → get_or (idt_set_gate u handler 0x08 attr idt) v no_gate ≡ get_or idt v no_gate
  unfolding idt_set_gate
  gate_ne u v ne = get_or-set_ne idt u v (gate handler attr) no_gate ne

  length-idt_set_gate : (v : ℕ) → length (idt_set_gate v handler 0x08 attr idt) ≡ length idt
  unfolding idt_set_gate
  length-idt_set_gate v = length-set idt v (gate handler attr)

length-set_gates :
    (isr : ℕ → ℕ) (vs : List ℕ) (idt : List IdtEntry) → length (set_gates isr vs idt) ≡ length idt
unfolding set_gates
length-set_gates isr [] idt = refl
length-set_gates isr (v ∷ vs) idt =
    length-set_gates isr vs (idt_set_gate v (isr v) 0x08 0x8E idt)
    ∙ length-idt_set_gate (isr v) 0x8E idt v

if_same : (b : Bool) (g : IdtEntry) → (if b then g else g) ≡ g
if_same true g = refl
if_same false g = refl

set_gates_lem :
    (isr : ℕ → ℕ) (vs : List ℕ) (idt : List IdtEntry) (v : ℕ)
    → v < length idt
    → get_or (set_gates isr vs idt) v no_gate
      ≡ (if has v vs then gate (isr v) 0x8E else get_or idt v no_gate)
unfolding set_gates
set_gates_lem isr [] idt v h = refl
set_gates_lem isr (u ∷ us) idt v h =
    let idt' = idt_set_gate u (isr u) 0x08 0x8E idt in
    set_gates_lem isr us idt' v (omega (arith, length-idt_set_gate (isr u) 0x8E idt u))
    ∙ elim (Bool-cases (v == u)) [
      | inl same ↦
          let e : u ≡ v = ground arith in
          let here : get_or idt' v no_gate ≡ gate (isr v) 0x8E =
            ap (λ j. get_or idt' j no_gate) (sym e)
            ∙ gate_self (isr u) 0x8E idt u (omega arith)
            ∙ ap (λ j. gate (isr j) 0x8E) e in
          ap (λ g. if has v us then gate (isr v) 0x8E else g) here
          ∙ if_same (has v us) (gate (isr v) 0x8E)
          ∙ ap (λ b. if b || has v us then gate (isr v) 0x8E else get_or idt v no_gate) (sym same)
      | inr other ↦
          let ne : u ≢ v = ground arith in
          ap (λ g. if has v us then gate (isr v) 0x8E else g) (gate_ne (isr u) 0x8E idt u v ne)
          ∙ ap (λ b. if b || has v us then gate (isr v) 0x8E else get_or idt v no_gate) (sym other)
    ]

-- What the processor should find at a vector whose entry point is `isr v`.
abbrev pub Expected : (ℕ → ℕ) → ℕ → IdtEntry → Type 0
Expected isr v g =
    if v == 128
    then Leads g (isr v) 0xEF
    else if has v kernel_vectors
    then Leads g (isr v) 0x8E
    else g ≡ no_gate

get_or-replicate : (n i : ℕ) → get_or (replicate n no_gate) i no_gate ≡ no_gate
get_or-replicate zero i = refl
get_or-replicate (suc n) zero = refl
get_or-replicate (suc n) (suc i) = get_or-replicate n i

module _ (isr : ℕ → ℕ) (v : ℕ) (v_in : v < 256) (small : isr v < 2 ^ 32) where
  abbrev kernel_gates : List IdtEntry
  kernel_gates = set_gates isr kernel_vectors (replicate 256 no_gate)

  gates_length : length kernel_gates ≡ 256
  gates_length =
      length-set_gates isr kernel_vectors (replicate 256 no_gate) ∙ length-replicate 256 no_gate

  kernel_gate :
      get_or kernel_gates v no_gate ≡ (if has v kernel_vectors then gate (isr v) 0x8E else no_gate)
  kernel_gate =
      set_gates_lem isr kernel_vectors (replicate 256 no_gate) v
        (omega (arith, length-replicate 256 no_gate))
      ∙ ap (λ g. if has v kernel_vectors then gate (isr v) 0x8E else g) (get_or-replicate 256 v)

  -- The gates of `idt_init` end with the one of the system call.
  idt_init_lem : idt_init isr ≡ idt_set_gate 128 (isr 128) 0x08 0xEF kernel_gates
  unfolding idt_init
  idt_init_lem = refl

  abbrev Kernel : (b : Bool) → IdtEntry → Type 0
  Kernel b g = if b then Leads g (isr v) 0x8E else g ≡ no_gate

  kernel_gate_lem : Kernel (has v kernel_vectors) (get_or kernel_gates v no_gate)
  kernel_gate_lem =
      subst (Kernel (has v kernel_vectors)) (sym kernel_gate) (chosen (has v kernel_vectors))
    where
      chosen : (b : Bool) → Kernel b (if b then gate (isr v) 0x8E else no_gate)
      chosen true = gate-Leads (isr v) 0x8E small
      chosen false = refl

  call_gate : v ≡ 128 → Leads (get_or (idt_init isr) v no_gate) (isr v) 0xEF
  call_gate e = subst (λ g. Leads g (isr v) 0xEF) (sym there) (gate-Leads (isr v) 0xEF small)
    where
      there : get_or (idt_init isr) v no_gate ≡ gate (isr v) 0xEF
      there =
          ap (λ idt. get_or idt v no_gate) idt_init_lem
          ∙ ap (λ j. get_or (idt_set_gate j (isr j) 0x08 0xEF kernel_gates) v no_gate) (sym e)
          ∙ gate_self (isr v) 0xEF kernel_gates v (omega (arith, gates_length))

  other_gate : 128 ≢ v → Kernel (has v kernel_vectors) (get_or (idt_init isr) v no_gate)
  other_gate ne = subst (Kernel (has v kernel_vectors)) (sym there) kernel_gate_lem
    where
      there : get_or (idt_init isr) v no_gate ≡ get_or kernel_gates v no_gate
      there =
          ap (λ idt. get_or idt v no_gate) idt_init_lem
          ∙ gate_ne (isr 128) 0xEF kernel_gates 128 v ne

  abbrev Gate : Bool → Type 0
  Gate b =
      if b
      then Leads (get_or (idt_init isr) v no_gate) (isr v) 0xEF
      else Kernel (has v kernel_vectors) (get_or (idt_init isr) v no_gate)

  -- After idt_init, the gate of each vector below 256, for entry points below 2^32, leads through
  -- the kernel's code segment to the entry point of that vector, as a trap gate that user programs
  -- may enter for 128 and as an interrupt gate for the kernel's vectors; the other vectors have no
  -- gate.
  pub idt_init-Expected : Expected isr v (get_or (idt_init isr) v no_gate)
  idt_init-Expected = elim (Bool-cases (v == 128)) [
    | inl call ↦ let e : v ≡ 128 = ground arith in subst Gate (sym call) (call_gate e)
    | inr other ↦ let ne : 128 ≢ v = ground arith in subst Gate (sym other) (other_gate ne)
  ]

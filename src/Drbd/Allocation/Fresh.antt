-- ===== src/Drbd/Allocation/Fresh.antt =====
-- That a DRBD drive is given a number that no other one has, and when the meta-data volume is large
-- enough.
use mcvirt.Base.{
  ℕ, zero, suc, ◌+◌, ◌*◌, ◌/◌, ◌%◌, ◌≤◌, ◌<◌, String, Bool, true, false, ◌||◌, ◌≡◌, refl, sym, ap,
  subst, ◌∙◌, Option, none, some, List, [], ◌∷◌, nat_eq, leb, if◌then◌else◌, arith, inl, inr,
  Bool-cases, ◌==◌,
}
use native.Mathlib.Nat.{add-zero}
use mcvirt.Base.Dict.{Dict, insert}
use mcvirt.Drbd.Allocation.{
  DriveNumbers, mem_number, mem_port, free_from, rounds, get_available_drbd_port,
  get_used_drbd_ports, initial_port, calculate_meta_data_size,
}

-- How many numbers of the lists are not below a number.
above : ℕ → List (Option ℕ) → List ℕ → ℕ
above n [] [] = 0
above n [] (m ∷ listening) = (if leb n m then 1 else 0) + above n [] listening
above n (none ∷ used) listening = above n used listening
above n (some m ∷ used) listening = (if leb n m then 1 else 0) + above n used listening

above_step :
    (n : ℕ) (used : List (Option ℕ)) (listening : List ℕ)
    → above (n + 1) used listening ≤ above n used listening
unfolding above
above_step n [] [] = omega arith
above_step n [] (m ∷ listening) = ground (arith, above_step n [] listening)
above_step n (none ∷ used) listening = above_step n used listening
above_step n (some m ∷ used) listening = ground (arith, above_step n used listening)

above_taken :
    (n : ℕ) (used : List (Option ℕ)) (listening : List ℕ)
    → (mem_number n used || mem_port n listening) ≡ true
    → above (n + 1) used listening < above n used listening
unfolding above mem_number mem_port
above_taken n [] [] taken = ground arith
above_taken n [] (m ∷ listening) taken =
    ground (arith, above_step n [] listening, above_taken n [] listening)
above_taken n (none ∷ used) listening taken = above_taken n used listening taken
above_taken n (some m ∷ used) listening taken =
    ground (arith, above_step n used listening, above_taken n used listening)

above-lt-rounds :
    (n : ℕ) (used : List (Option ℕ)) (listening : List ℕ)
    → above n used listening < rounds used listening
unfolding above rounds
above-lt-rounds n [] [] = omega arith
above-lt-rounds n [] (m ∷ listening) = ground (arith, above-lt-rounds n [] listening)
above-lt-rounds n (none ∷ used) listening = ground (arith, above-lt-rounds n used listening)
above-lt-rounds n (some m ∷ used) listening = ground (arith, above-lt-rounds n used listening)

-- A number is taken: a drive has it, or a node listens on it.
abbrev pub taken : ℕ → List (Option ℕ) → List ℕ → Bool
taken n used listening = mem_number n used || mem_port n listening

free_from_first :
    (fuel start : ℕ) (used : List (Option ℕ)) (listening : List ℕ)
    → above start used listening < fuel
    → (p : ℕ) × (free_from fuel start used listening ≡ some p)
      × (start ≤ p)
      × (taken p used listening ≡ false)
      × ((n : ℕ) → start ≤ n → n < p → taken n used listening ≡ true)
      × (p ≤ start + above start used listening)
unfolding free_from
free_from_first zero start used listening enough = absurd (omega arith)
free_from_first (suc fuel) start used listening enough =
    elim (Bool-cases (taken start used listening)) [
      | inl is_taken ↦
          let (p, found, later, free, first, near) =
            free_from_first fuel (start + 1) used listening
              (omega (arith, above_taken start used listening is_taken)) in
          (
            p,
            rw is_taken found,
            omega arith,
            free,
            (λ n from below. elim (Bool-cases (nat_eq start n)) [
              | inl here ↦
                  subst (λ m. taken m used listening ≡ true) (let e : start ≡ n = ground arith in e)
                    is_taken
              | inr there ↦ first n (ground arith) below
            ]),
            omega (arith, above_taken start used listening is_taken),
          )
      | inr is_free ↦ (
        start,
        rw is_free,
        omega arith,
        is_free,
        (λ n from below. absurd (omega arith)),
        omega arith,
      )
    ]

-- The search for a port ends within its rounds, for any drives and any ports that nodes listen on,
-- with the first port from the initial one on that no drive has and on which no node listens, and
-- that is below the initial port plus the number of rounds.
pub get_available_drbd_port_first :
    (drives : Dict DriveNumbers) (listening : List ℕ)
    → (port : ℕ) × (get_available_drbd_port drives listening ≡ some port)
      × (initial_port ≤ port)
      × (taken port (get_used_drbd_ports drives) listening ≡ false)
      × ((n : ℕ)
          → initial_port ≤ n
          → n < port
          → taken n (get_used_drbd_ports drives) listening ≡ true)
      × (port < initial_port + rounds (get_used_drbd_ports drives) listening)
unfolding get_available_drbd_port
get_available_drbd_port_first drives listening =
    let used = get_used_drbd_ports drives in
    let (port, found, later, free, first, near) =
      free_from_first (rounds used listening) initial_port used listening
        (above-lt-rounds initial_port used listening) in
    (port, found, later, free, first, omega (arith, above-lt-rounds initial_port used listening))

grow : (q size : ℕ) → ((q + 1) * 8 + 72) * size ≡ (q * 8 + 72) * size + 8 * size
grow q size = grind arith

-- The size that is calculated for the metadata is that of the formula of DRBD, which rounds up,
-- where the number of sectors is a multiple of 262144, and else is eight sectors below it.
pub calculate_meta_data_size_short :
    (sectors sector_size : ℕ)
    → ((sectors + 262143) / 262144 * 8 + 72) * sector_size
      ≡ calculate_meta_data_size sectors sector_size
        + (if nat_eq (sectors % 262144) 0 then 0 else 8 * sector_size)
unfolding calculate_meta_data_size
calculate_meta_data_size_short sectors sector_size =
    elim (Bool-cases (nat_eq (sectors % 262144) 0)) [
      | inl whole ↦ rw whole (
          ap (λ q. (q * 8 + 72) * sector_size)
            (let h : sectors % 262144 ≡ 0 = ground arith in
              let e : (sectors + 262143) / 262144 ≡ sectors / 262144 = omega arith in e)
          ∙ sym (add-zero _))
      | inr partly ↦ rw partly (
          ap (λ q. (q * 8 + 72) * sector_size)
            (let h : 0 < sectors % 262144 = ground arith in
              let e : (sectors + 262143) / 262144 ≡ sectors / 262144 + 1 = omega arith in e)
          ∙ grow (sectors / 262144) sector_size)
    ]

-- Drives that have a port have different ones.
abbrev pub Distinct : List (Option ℕ) → Type 0
Distinct [] = Unit
Distinct (none ∷ ports) = Distinct ports
Distinct (some p ∷ ports) = (mem_number p ports ≡ false) × Distinct ports

mem_tail :
    (q : ℕ) (o : Option ℕ) (l : List (Option ℕ))
    → mem_number q (o ∷ l) ≡ false
    → mem_number q l ≡ false
unfolding mem_number
mem_tail q none l absent = absent
mem_tail q (some p) l absent = ground arith

mem_cons :
    (q : ℕ) (o : Option ℕ) (l l' : List (Option ℕ))
    → mem_number q (o ∷ l) ≡ false
    → mem_number q l' ≡ false
    → mem_number q (o ∷ l') ≡ false
unfolding mem_number
mem_cons q none l l' absent rest = rest
mem_cons q (some p) l l' absent rest = ground arith

-- The drives once one of them has been given a port.
abbrev pub with_port : String → DriveNumbers → ℕ → Dict DriveNumbers → Dict DriveNumbers
with_port id drive p drives = insert id (record drive { drbd_port = some p }) drives

mem-with_port :
    (p q : ℕ) (id : String) (drive : DriveNumbers) (drives : Dict DriveNumbers)
    → mem_number q (get_used_drbd_ports drives) ≡ false
    → nat_eq p q ≡ false
    → mem_number q (get_used_drbd_ports (with_port id drive p drives)) ≡ false
unfolding get_used_drbd_ports insert mem_number
mem-with_port p q id drive [] absent other = ground arith
mem-with_port p q id drive ((j, d) ∷ drives) absent other = elim (Bool-cases (j == id)) [
  | inl same ↦ rw same (rw other (mem_tail q d.drbd_port (get_used_drbd_ports drives) absent))
  | inr elsewhere ↦ rw elsewhere (
      mem_cons q d.drbd_port (get_used_drbd_ports drives)
        (get_used_drbd_ports (with_port id drive p drives)) absent
        (mem-with_port p q id drive drives
          (mem_tail q d.drbd_port (get_used_drbd_ports drives) absent) other))
]

Distinct-tail : (o : Option ℕ) (l : List (Option ℕ)) → Distinct (o ∷ l) → Distinct l
Distinct-tail none l distinct = distinct
Distinct-tail (some p) l distinct = distinct.1

Distinct-cons :
    (p : ℕ) (o : Option ℕ) (l l' : List (Option ℕ))
    → Distinct (o ∷ l)
    → mem_number p (o ∷ l) ≡ false
    → ((q : ℕ) → mem_number q l ≡ false → nat_eq p q ≡ false → mem_number q l' ≡ false)
    → Distinct l'
    → Distinct (o ∷ l')
unfolding mem_number
Distinct-cons p none l l' distinct absent keeps rest = rest
Distinct-cons p (some q) l l' distinct absent keeps rest = (keeps q distinct.0 (ground arith), rest)

pub Distinct-with_port :
    (p : ℕ) (id : String) (drive : DriveNumbers) (drives : Dict DriveNumbers)
    → Distinct (get_used_drbd_ports drives)
    → mem_number p (get_used_drbd_ports drives) ≡ false
    → Distinct (get_used_drbd_ports (with_port id drive p drives))
unfolding get_used_drbd_ports insert mem_number
Distinct-with_port p id drive [] distinct absent = (refl, tt)
Distinct-with_port p id drive ((j, d) ∷ drives) distinct absent = elim (Bool-cases (j == id)) [
  | inl same ↦ rw same (
    mem_tail p d.drbd_port (get_used_drbd_ports drives) absent,
    Distinct-tail d.drbd_port (get_used_drbd_ports drives) distinct,
  )
  | inr elsewhere ↦ rw elsewhere (
      Distinct-cons p d.drbd_port (get_used_drbd_ports drives)
        (get_used_drbd_ports (with_port id drive p drives)) distinct absent
        (λ q not_used other. mem-with_port p q id drive drives not_used other)
        (Distinct-with_port p id drive drives
          (Distinct-tail d.drbd_port (get_used_drbd_ports drives) distinct)
          (mem_tail p d.drbd_port (get_used_drbd_ports drives) absent)))
]

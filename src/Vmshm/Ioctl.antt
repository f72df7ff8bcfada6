-- ===== src/Vmshm/Ioctl.antt =====
-- `vmshm_ioctl` and `vmshm_release`: every call returns and keeps the invariant.
use pi_frame.Prelude.{
  ℕ, suc, ◌+◌, ◌^◌, ◌<◌, ◌≡◌, refl, true, Bool-cases, Option-cases, inl, inr, Option, none, some,
  List, ◌∷◌, arith, Outcome, ret, ◌>>=◌, ltb, length,
}
use pi_frame.Vmshm.{
  Driver, efault, einval, ebusy, enoent, Reply, done, size_of, error, lookup, Grants, create,
  remove, select, unselect, find_file, drop_file, name_from_user, max_name_length, is_empty, result,
  Command, create_cmd, remove_cmd, select_cmd, unselect_cmd, other, ioctl, release,
}
use pi_frame.Vmshm.Mems.{by_name, lookup-by_name, find_mem-by_name}
use pi_frame.Vmshm.Inv.{Inv, held, held-drop_file, unselect-Inv, select-Inv, remove-Inv}
use pi_frame.Vmshm.Create.{create-Inv}

-- The name leaves room for the zero behind it.
abbrev pub ShortName : Option (List ℕ) → Type 0
ShortName none = Unit {0}
ShortName (some name) = length name < max_name_length

abbrev pub Short : Command → Type 0
Short (create_cmd none) = Unit {0}
Short (create_cmd (some (arg, size, perm, flags))) = ShortName arg
Short (remove_cmd arg) = ShortName arg
Short (select_cmd arg) = ShortName arg
Short unselect_cmd = Unit {0}
Short other = Unit {0}

-- No counter is about to wrap.
abbrev pub Room : Driver → (ℕ → ℕ) → Type 0
Room d others = (i : ℕ) → suc (held i d.files + others i) < 2 ^ 32

pub name_from_user-short :
    (name : List ℕ) → length name < max_name_length → name_from_user (some name) ≡ ret (some name)
unfolding name_from_user
name_from_user-short name h =
    let t : ltb (length name) max_name_length ≡ true = ground arith in rw t refl

name_from_user-none : name_from_user none ≡ ret none
unfolding name_from_user
name_from_user-none = refl

abbrev Returns : (ℕ → ℕ) → Outcome (Reply × Driver) → Type 0
Returns others r = (v : Reply × Driver) × (r ≡ ret v) × Inv v.1 others

module _ (page : ℕ) (grants : Grants) (file : ℕ) (d : Driver) (others : ℕ → ℕ) where
  create_cmd-Returns :
      (name : List ℕ) (size perm flags : ℕ)
      → Inv d others
      → grants.module_ref ≡ true
      → Returns others (create page grants name size perm flags d >>= λ r. ret (result r.0, r.1))
  create_cmd-Returns name size perm flags v stays =
      elim (create-Inv page d others name size perm flags grants v stays) [
        | inl (e, run) ↦ ((error e, d), rw run refl, v)
        | inr (d', m, run, _, _, _, _, v') ↦ ((done, d'), rw run refl, v')
      ]

  remove_cmd-Returns :
      (name : List ℕ)
      → Inv d others
      → Returns others (
          lookup name d.mems >>= λ r. elim r [
            | none ↦ ret (error enoent, d)
            | some m ↦ let (e, d') = remove m d in ret (result e, d')
          ])
  remove_cmd-Returns name v =
      let run = lookup-by_name d.next name d.mems v.good in
      elim (Option-cases (by_name name d.mems)) [
        | inl missing ↦ ((error enoent, d), rw (run, missing) refl, v)
        | inr (m, found) ↦
            elim (remove-Inv d others m v (find_mem-by_name d.next name d.mems m v.good found)) [
              | inl (busy, _) ↦ ((error ebusy, d), rw (run, found) (rw busy refl), v)
              | inr (d', gone, _, _, v') ↦ ((done, d'), rw (run, found) (rw gone refl), v')
            ]
      ]

  select_cmd-Returns :
      (name : List ℕ)
      → Inv d others
      → Room d others
      → Returns others (
          select name d >>= λ r. elim r.0 [
            | none ↦ ret (error enoent, r.1)
            | some m ↦ ret (size_of m.size, record (r.1) { files = (file, m.id) ∷ r.1.files })
          ])
  select_cmd-Returns name v room =
      elim (select-Inv d others name (λ i. (file, i) ∷ d.files) (λ i. others) v (λ i j. omega arith)
        room) [
          | inl (_, run) ↦ ((error enoent, d), rw run refl, v)
          | inr (m, d', _, run, same, v') ↦ (
            (size_of m.size, record d' { files = (file, m.id) ∷ d'.files }),
            rw run refl,
            rw same v',
          )
        ]

  release_lem :
      (i : ℕ)
      → find_file file d.files ≡ some i
      → Inv d others
      → (d' : Driver) × (unselect i d ≡ ret d')
        × Inv (record d' { files = drop_file file d'.files }) others
  release_lem i here v =
      let (d', run, same, v') =
        unselect-Inv d others i (drop_file file d.files) others v
          (λ j. omega (arith, held-drop_file j file i d.files here)) in
      (d', run, rw same v')

  -- `vmshm_ioctl`, called with a name that is shorter than the array for it while the module stays and
  -- no counter is at its end, returns for every command and keeps the invariant: no memory that is
  -- freed is read, and the counter of each memory is the number of its users.
  pub ioctl-Returns :
      (cmd : Command)
      → Inv d others
      → grants.module_ref ≡ true
      → Short cmd
      → Room d others
      → Returns others (ioctl page grants file cmd d)
  unfolding ioctl
  ioctl-Returns (create_cmd none) v stays short room = ((error efault, d), refl, v)
  ioctl-Returns (create_cmd (some (none, size, perm, flags))) v stays short room =
      ((error efault, d), rw name_from_user-none refl, v)
  ioctl-Returns (create_cmd (some (some name, size, perm, flags))) v stays short room =
      rw (name_from_user-short name short) (elim (Bool-cases (is_empty name)) [
        | inl empty ↦ rw empty ((error einval, d), refl, v)
        | inr named ↦ rw named (create_cmd-Returns name size perm flags v stays)
      ])
  ioctl-Returns (remove_cmd none) v stays short room =
      ((error efault, d), rw name_from_user-none refl, v)
  ioctl-Returns (remove_cmd (some name)) v stays short room =
      rw (name_from_user-short name short) (elim (Bool-cases (is_empty name)) [
        | inl empty ↦ rw empty ((error einval, d), refl, v)
        | inr named ↦ rw named (remove_cmd-Returns name v)
      ])
  ioctl-Returns (select_cmd arg) v stays short room = elim (Option-cases (find_file file d.files)) [
    | inr (i, has) ↦ ((error ebusy, d), rw (has, ioctl) refl, v)
    | inl nothing ↦ rw (nothing, ioctl) (select_arg arg short)
  ]
    where
      select_arg :
          (arg : Option (List ℕ))
          → ShortName arg
          → Returns others (
              name_from_user arg >>= λ r. elim r [
                | none ↦ ret (error efault, d)
                | some name ↦ select name d >>= λ r. elim r.0 [
                  | none ↦ ret (error enoent, r.1)
                  | some m ↦ ret (size_of m.size, record (r.1) { files = (file, m.id) ∷ r.1.files })
                ]
              ])
      select_arg none short' = ((error efault, d), rw name_from_user-none refl, v)
      select_arg (some name) short' =
          rw (name_from_user-short name short') (select_cmd-Returns name v room)
  ioctl-Returns unselect_cmd v stays short room = elim (Option-cases (find_file file d.files)) [
    | inl nothing ↦ ((error einval, d), rw (nothing, ioctl) refl, v)
    | inr (i, here) ↦
        let (d', run, v') = release_lem i here v in
        ((done, record d' { files = drop_file file d'.files }), rw (here, ioctl) (rw run refl), v')
  ]
  ioctl-Returns other v stays short room = ((error einval, d), refl, v)

  -- `vmshm_release` returns and keeps the invariant: the memory that the file has selected, if any,
  -- has a user less.
  pub release-Inv : Inv d others → (d' : Driver) × (release file d ≡ ret d') × Inv d' others
  unfolding release
  release-Inv v = elim (Option-cases (find_file file d.files)) [
    | inl nothing ↦ (d, rw (nothing, release) refl, v)
    | inr (i, here) ↦
        let (d', run, v') = release_lem i here v in
        (record d' { files = drop_file file d'.files }, rw (here, release) (rw run refl), v')
  ]

-- ===== src/Vmshm/Users.antt =====
-- What the users of a shared memory rely on.
use pi_frame.Prelude.{
  ℕ, suc, ◌+◌, ◌^◌, ◌<◌, ◌≡◌, refl, sym, ap, ◌∙◌, subst, true, false, Bool-cases, ◌⊎◌, inl, inr,
  none, some, List, [], ◌∷◌, arith, ret, ◌==◌, length, some-none, same_name, same_name_refl,
  same_name→≡,
}
use pi_frame.Vmshm.{
  SharedMemory, Driver, Error, ebusy, size_of, error, find_mem, Grants, create, remove, find_file,
  max_name_length, is_empty, remove_cmd, select_cmd, ioctl, whole_pages,
}
use pi_frame.Vmshm.Mems.{by_name, Good, lookup-by_name}
use pi_frame.Vmshm.Inv.{Inv, held, one, held-drop_file, remove-Inv, select-Inv}
use pi_frame.Vmshm.Create.{create-Inv}
use pi_frame.Vmshm.Ioctl.{name_from_user-short}

by_name-find_mem :
    (n i : ℕ) (ms : List SharedMemory) (m : SharedMemory)
    → Good n ms
    → find_mem i ms ≡ some m
    → by_name m.name ms ≡ some m
unfolding find_mem
by_name-find_mem n i [] m g h = cc
by_name-find_mem n i (x ∷ ms) m g h = elim (Bool-cases (x.id == i)) [
  | inl hit ↦
      let e : x ≡ m = ground arith in
      let t : same_name x.name m.name ≡ true =
        subst (λ y. same_name x.name y.name ≡ true) e (same_name_refl x.name) in
      simp t (ap some e)
  | inr miss ↦
      let there = by_name-find_mem n i ms m g.4 (simp miss at h) in
      elim (Bool-cases (same_name x.name m.name)) [
        | inl same ↦ absurd (
            some-none (
              sym there
              ∙ subst (λ name. by_name name ms ≡ none) (same_name→≡ x.name m.name same) g.3))
        | inr other ↦ simp other there
      ]
]

-- A memory that a file has selected stays: `VMSHM_REMOVE` with its name, by any file, is refused and
-- changes nothing. The name is no longer than a call can give it, and not empty.
pub remove_cmd-busy :
    (page : ℕ) (grants : Grants) (f g : ℕ) (d : Driver) (others : ℕ → ℕ) (m : SharedMemory)
    → Inv d others
    → find_file f d.files ≡ some m.id
    → find_mem m.id d.mems ≡ some m
    → is_empty m.name ≡ false
    → length m.name < max_name_length
    → ioctl page grants g (remove_cmd (some m.name)) d ≡ ret (error ebusy, d)
unfolding ioctl
remove_cmd-busy page grants f g d others m v here there named short =
    let self : one m.id m.id ≡ 1 = ground arith in
    let used : 0 < held m.id d.files + others m.id =
      omega (arith, held-drop_file m.id f m.id d.files here, self) in
    let found = by_name-find_mem d.next m.id d.mems m v.good there in
    let busy : remove m d ≡ (some ebusy, d) = elim (remove-Inv d others m v there) [
      | inl (busy, _) ↦ busy
      | inr (d', _, nobody, _, _) ↦ absurd (omega (arith, used, nobody))
    ] in
    rw (name_from_user-short m.name short)
      (rw named (rw (lookup-by_name d.next m.name d.mems v.good, found) (rw busy refl)))

-- `vmshm_create`, called while the module stays, with a name shorter than the array, and where one user more
-- of any memory can be counted, either changes nothing and says why, or a file that has selected nothing
-- can then select the memory by its name with `VMSHM_SELECT`, and is told its size, rounded up to whole
-- pages.
pub create-select :
    (page : ℕ) (grants : Grants) (f size perm flags : ℕ) (name : List ℕ) (d : Driver)
    (others : ℕ → ℕ)
    → Inv d others
    → grants.module_ref ≡ true
    → length name < max_name_length
    → find_file f d.files ≡ none
    → ((i : ℕ) → suc (held i d.files + others i) < 2 ^ 32)
    → ((e : Error) × (create page grants name size perm flags d ≡ ret (some e, d)))
      ⊎ ((d' : Driver) × (d'' : Driver) × (create page grants name size perm flags d
            ≡ ret (none, d'))
          × (ioctl page grants f (select_cmd (some name)) d'
              ≡ ret (size_of (whole_pages page size), d''))
          × Inv d'' others)
unfolding ioctl
create-select page grants f size perm flags name d others v stays short idle room =
    elim (create-Inv page d others name size perm flags grants v stays) [
      | inl failed ↦ inl failed
      | inr (d', m, run, missing, found, sized, files, v') ↦
          let idle' : find_file f d'.files ≡ none = ap (find_file f) files ∙ idle in
          let room' : (i : ℕ) → suc (held i d'.files + others i) < 2 ^ 32 =
            λ i. subst (λ fs. suc (held i fs + others i) < 2 ^ 32) (sym files) (room i) in
          elim (select-Inv d' others name (λ i. (f, i) ∷ d'.files) (λ i. others) v'
            (λ i j. omega arith) room') [
              | inl (absent, _) ↦ absurd (some-none (sym found ∙ absent))
              | inr (k, d'', found', selected, same, v'') ↦ inr (
                d',
                record d'' { files = (f, k.id) ∷ d''.files },
                run,
                rw (idle', ioctl)
                    (rw (name_from_user-short name short) (
                      rw selected (
                        let e : k ≡ m = ground (arith, found, found') in
                        let size_e : k.size ≡ whole_pages page size =
                          ap (λ (x : SharedMemory). x.size) e ∙ sized in
                        rw size_e refl))),
                rw same v'',
              )
            ]
    ]

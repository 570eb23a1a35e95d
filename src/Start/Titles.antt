-- ===== src/Start/Titles.antt =====
-- `SetProcTitle` in the cycles of app/XiaoHG_C_ProcessCtl.cxx: a process with its title.
use xiao_hg_server.Base.{
  ℕ, ◌<◌, ◌-◌, ◌^◌, ◌≡◌, refl, sym, ap, ◌∙◌, ◌⊎◌, inl, inr, Bool, true, false, List, ◌++◌, some,
  arith, if◌then◌else◌, ltb, length, length-append, Bool-cases, ltb→lt, ltb-false,
}
use xiao_hg_server.Process.{MainArg, in_os, string_at, set_proc_title}
use xiao_hg_server.Process.Environ.{NoZero, zeros, length-zeros}
use xiao_hg_server.Process.Title.{Prepared, with_room, without_room, title_string}
use xiao_hg_server.Start.{Program, Started, has_ended, with_title}

-- A process that has `title`, and is `p` else.
pub record IsTitled (title : List ℕ) (envs : List (List ℕ)) (p q : Program) : Type 0 where
  pub name : string_at q.main_arg (in_os 0) ≡ title
  pub prepared : Prepared envs q.main_arg
  pub size : length q.main_arg.os_mem ≡ length p.main_arg.os_mem
  pub others : q ≡ record p { main_arg = q.main_arg }

-- How the setting of a title ends, by whether it has room.
pub data TitleEnds (title : List ℕ) (envs : List (List ℕ)) (p : Program) (e : Started ⊎ Program)
    : Type 0 where
  has_title :
      (q : Program)
      → ltb (length title) (length p.main_arg.os_mem) ≡ true
      → e ≡ inr q
      → IsTitled title envs p q
      → TitleEnds title envs p e
  no_room :
      ltb (length title) (length p.main_arg.os_mem) ≡ false
      → e ≡ inl has_ended
      → TitleEnds title envs p e

abbrev chosen : Program → Bool × MainArg → Started ⊎ Program
chosen p r = if r.0 then inr (record p { main_arg = r.1 }) else inl has_ended

with_title_lem :
    (t : List ℕ) (p : Program) → with_title (some t) p ≡ chosen p (set_proc_title t p.main_arg)
unfolding with_title
with_title_lem t p = refl

pub with_title-TitleEnds :
    (title : List ℕ) (envs : List (List ℕ)) (p : Program)
    → Prepared envs p.main_arg
    → length p.main_arg.os_mem < 2 ^ 32
    → length title < 2 ^ 32
    → NoZero title
    → TitleEnds title envs p (with_title (some title) p)
with_title-TitleEnds title envs p h small short clean =
    let m : MainArg = p.main_arg in
    let n : ℕ = length m.os_mem - length title in
    elim (Bool-cases (ltb (length title) (length m.os_mem))) [
      | inl e ↦
          let room = ltb→lt (length title) (length m.os_mem) e in
          let new : MainArg = record m { os_mem = title ++ zeros n } in
          let size : length (title ++ zeros n) ≡ length m.os_mem =
            omega (arith, length-append title (zeros n), length-zeros n, room) in
          has_title (record p { main_arg = new }) e
            (with_title_lem title p
              ∙ ap (chosen p) (with_room title envs m h small short clean room))
            (record {
              name = title_string title n clean (omega (arith, room));
              prepared = record { size = h.size ∙ sym size; env = h.env };
              size = size;
              others = refl;
            })
      | inr e ↦ no_room e (
          with_title_lem title p
          ∙ ap (chosen p) (
              without_room title envs m h small short
                (ltb-false (length title) (length m.os_mem) e)))
    ]

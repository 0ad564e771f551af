-- ===== src/Fcntl/Commands.antt =====
-- `capi::fcntl_cmd` of include/pposix/fcntl.hpp: the commands, those of Linux included, and the
-- macros that they stand for.
use pposix.Base.{◌≡◌, ◌≢◌, ◌⊎◌, inl, inr, refl, sym, ap, ◌∙◌}

-- The enumerators of `capi::fcntl_cmd`.
pub data FcntlCmdName : Type 0 where
  dupfd dupfd_cloexec getfd setfd getfl setfl getlk setlk setlkw getown setown : FcntlCmdName
  rdlck unlck wrlck ofd_setlk ofd_setlkw ofd_getlk getown_ex setown_ex getsig : FcntlCmdName
  setsig setlease getlease notify setpipe_sz getpipe_sz add_seals get_seals : FcntlCmdName
  seal_seal seal_shrink seal_grow seal_write get_rw_hint set_rw_hint : FcntlCmdName
  get_file_rw_hint set_file_rw_hint : FcntlCmdName

-- The macros of <fcntl.h> that give them their values.
pub data FcntlMacro : Type 0 where
  f_dupfd f_dupfd_cloexec f_getfd f_setfd f_getfl f_setfl f_getlk f_setlk f_setlkw : FcntlMacro
  f_getown f_setown f_rdlck f_unlck f_wrlck f_ofd_setlk f_ofd_setlkw f_ofd_getlk : FcntlMacro
  f_getown_ex f_setown_ex f_getsig f_setsig f_setlease f_getlease f_notify : FcntlMacro
  f_setpipe_sz f_getpipe_sz f_add_seals f_get_seals f_seal_seal f_seal_shrink : FcntlMacro
  f_seal_grow f_seal_write f_get_rw_hint f_set_rw_hint f_get_file_rw_hint : FcntlMacro

unfoldable pub fcntl_macro : FcntlCmdName → FcntlMacro
fcntl_macro dupfd = f_dupfd
fcntl_macro dupfd_cloexec = f_dupfd_cloexec
fcntl_macro getfd = f_getfd
fcntl_macro setfd = f_setfd
fcntl_macro getfl = f_getfl
fcntl_macro setfl = f_setfl
fcntl_macro getlk = f_getlk
fcntl_macro setlk = f_setlk
fcntl_macro setlkw = f_setlkw
fcntl_macro getown = f_getown
fcntl_macro setown = f_setown
fcntl_macro rdlck = f_rdlck
fcntl_macro unlck = f_unlck
fcntl_macro wrlck = f_wrlck
fcntl_macro ofd_setlk = f_ofd_setlk
fcntl_macro ofd_setlkw = f_ofd_setlkw
fcntl_macro ofd_getlk = f_ofd_getlk
fcntl_macro getown_ex = f_getown_ex
fcntl_macro setown_ex = f_setown_ex
fcntl_macro getsig = f_getsig
fcntl_macro setsig = f_setsig
fcntl_macro setlease = f_setlease
fcntl_macro getlease = f_getlease
fcntl_macro notify = f_notify
fcntl_macro setpipe_sz = f_setpipe_sz
fcntl_macro getpipe_sz = f_getpipe_sz
fcntl_macro add_seals = f_add_seals
fcntl_macro get_seals = f_get_seals
fcntl_macro seal_seal = f_seal_seal
fcntl_macro seal_shrink = f_seal_shrink
fcntl_macro seal_grow = f_seal_grow
fcntl_macro seal_write = f_seal_write
fcntl_macro get_rw_hint = f_get_rw_hint
fcntl_macro set_rw_hint = f_set_rw_hint
fcntl_macro get_file_rw_hint = f_get_file_rw_hint
fcntl_macro set_file_rw_hint = f_get_file_rw_hint

-- The first enumerator that stands for a macro.
fcntl_name : FcntlMacro → FcntlCmdName
fcntl_name f_dupfd = dupfd
fcntl_name f_dupfd_cloexec = dupfd_cloexec
fcntl_name f_getfd = getfd
fcntl_name f_setfd = setfd
fcntl_name f_getfl = getfl
fcntl_name f_setfl = setfl
fcntl_name f_getlk = getlk
fcntl_name f_setlk = setlk
fcntl_name f_setlkw = setlkw
fcntl_name f_getown = getown
fcntl_name f_setown = setown
fcntl_name f_rdlck = rdlck
fcntl_name f_unlck = unlck
fcntl_name f_wrlck = wrlck
fcntl_name f_ofd_setlk = ofd_setlk
fcntl_name f_ofd_setlkw = ofd_setlkw
fcntl_name f_ofd_getlk = ofd_getlk
fcntl_name f_getown_ex = getown_ex
fcntl_name f_setown_ex = setown_ex
fcntl_name f_getsig = getsig
fcntl_name f_setsig = setsig
fcntl_name f_setlease = setlease
fcntl_name f_getlease = getlease
fcntl_name f_notify = notify
fcntl_name f_setpipe_sz = setpipe_sz
fcntl_name f_getpipe_sz = getpipe_sz
fcntl_name f_add_seals = add_seals
fcntl_name f_get_seals = get_seals
fcntl_name f_seal_seal = seal_seal
fcntl_name f_seal_shrink = seal_shrink
fcntl_name f_seal_grow = seal_grow
fcntl_name f_seal_write = seal_write
fcntl_name f_get_rw_hint = get_rw_hint
fcntl_name f_set_rw_hint = set_rw_hint
fcntl_name f_get_file_rw_hint = get_file_rw_hint

fcntl_name-macro : (c : FcntlCmdName) → c ≢ set_file_rw_hint → fcntl_name (fcntl_macro c) ≡ c
unfolding fcntl_name fcntl_macro
fcntl_name-macro dupfd h = refl
fcntl_name-macro dupfd_cloexec h = refl
fcntl_name-macro getfd h = refl
fcntl_name-macro setfd h = refl
fcntl_name-macro getfl h = refl
fcntl_name-macro setfl h = refl
fcntl_name-macro getlk h = refl
fcntl_name-macro setlk h = refl
fcntl_name-macro setlkw h = refl
fcntl_name-macro getown h = refl
fcntl_name-macro setown h = refl
fcntl_name-macro rdlck h = refl
fcntl_name-macro unlck h = refl
fcntl_name-macro wrlck h = refl
fcntl_name-macro ofd_setlk h = refl
fcntl_name-macro ofd_setlkw h = refl
fcntl_name-macro ofd_getlk h = refl
fcntl_name-macro getown_ex h = refl
fcntl_name-macro setown_ex h = refl
fcntl_name-macro getsig h = refl
fcntl_name-macro setsig h = refl
fcntl_name-macro setlease h = refl
fcntl_name-macro getlease h = refl
fcntl_name-macro notify h = refl
fcntl_name-macro setpipe_sz h = refl
fcntl_name-macro getpipe_sz h = refl
fcntl_name-macro add_seals h = refl
fcntl_name-macro get_seals h = refl
fcntl_name-macro seal_seal h = refl
fcntl_name-macro seal_shrink h = refl
fcntl_name-macro seal_grow h = refl
fcntl_name-macro seal_write h = refl
fcntl_name-macro get_rw_hint h = refl
fcntl_name-macro set_rw_hint h = refl
fcntl_name-macro get_file_rw_hint h = refl
fcntl_name-macro set_file_rw_hint h = absurd (h refl)

FcntlCmdName-discrete : Discrete FcntlCmdName
FcntlCmdName-discrete = hlevel

-- Only `get_file_rw_hint` has the macro of `set_file_rw_hint`.
shared_with_set :
    (c : FcntlCmdName)
    → c ≢ set_file_rw_hint
    → fcntl_macro set_file_rw_hint ≡ fcntl_macro c
    → c ≡ get_file_rw_hint
unfolding fcntl_macro fcntl_name
shared_with_set c h e = sym (fcntl_name-macro c h) ∙ ap fcntl_name (sym e)

-- Two different commands stand for the same macro only if they are `get_file_rw_hint` and
-- `set_file_rw_hint`, in either order.
pub fcntl_macro_shared :
    (a b : FcntlCmdName)
    → a ≢ b
    → fcntl_macro a ≡ fcntl_macro b
    → ((a ≡ get_file_rw_hint) × (b ≡ set_file_rw_hint))
      ⊎ ((a ≡ set_file_rw_hint) × (b ≡ get_file_rw_hint))
fcntl_macro_shared a b ne e = elim (FcntlCmdName-discrete a set_file_rw_hint) [
  | yes p ↦ inr (p, shared_with_set b (λ q. ne (p ∙ sym q)) (sym (ap fcntl_macro p) ∙ e))
  | no np ↦ elim (FcntlCmdName-discrete b set_file_rw_hint) [
    | yes q ↦ inl (shared_with_set a np (sym (ap fcntl_macro q) ∙ sym e), q)
    | no nq ↦ absurd (ne (sym (fcntl_name-macro a np) ∙ ap fcntl_name e ∙ fcntl_name-macro b nq))
  ]
]

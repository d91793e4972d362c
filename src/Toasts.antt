-- ===== src/Toasts.antt =====
-- frontend/src/components/ui/toast.tsx: the list of toasts that `ToastProvider` keeps, the life of
-- one `ToastItem`, and the observer of frontend/src/main.tsx that turns errors into toasts.
pub mod Numbers
mod Tests
use ready_jlmirror.Common.{
  ℕ, suc, String, Bool, true, false, not, List, [], ◌∷◌, ◌++◌, Option, none, some, ◌==◌, ◌<>◌, show,
  last_of, filter, map, ◌or_else◌,
}
use ready_jlmirror.Ui.{ToastVariant, success, error, warning, info, Element, text, button, embed}
use ready_jlmirror.Client.{Failure}

pub record Toast : Type 0 where
  pub id : String
  pub message : String
  pub variant : ToastVariant
  pub duration : Option ℕ

-- The state of the provider: the toasts shown, oldest first, and the counter of identities.
pub record Toasts : Type 0 where
  pub toasts : List Toast
  pub counter : ℕ

abbrev pub start : Toasts
start = record { toasts = []; counter = 0 }

abbrev pub toast_id : ℕ → String
toast_id n = "toast-" <> show n

-- `toast(message, variant = "info", duration)`
pub toast : String → Option ToastVariant → Option ℕ → Toasts → Toasts
toast m v d s =
    let n = suc s.counter in
    record {
      toasts =
          last_of 4 s.toasts
          ++ (record { id = toast_id n; message = m; variant = v or_else info; duration = d } ∷ []);
      counter = n;
    }

-- `remove(id)`
pub remove : String → Toasts → Toasts
remove k s = record s { toasts = filter (λ t. not (t.id == k)) s.toasts }

-- What happens to the provider.
pub data Action : Type 0 where
  add : String → Option ToastVariant → Option ℕ → Action
  drop_toast : String → Action

pub act : Toasts → Action → Toasts
unfolding toast remove
act s (add m v d) = toast m v d s
act s (drop_toast k) = remove k s

pub run : Toasts → List Action → Toasts
run s [] = s
run s (a ∷ more) = run (act s a) more

-- The icon of a variant.
icon : ToastVariant → String
icon success = "CheckCircle"
icon error = "XCircle"
icon warning = "AlertTriangle"
icon info = "Info"

-- The events of one `ToastItem`: the next frame, the end of its time, a click on its cross, and
-- the end of the 300 ms after either.
pub data ItemEvent : Type 0 where
  frame timeout close gone : ItemEvent

pub data ItemEffect : Type 0 where
  on_next_frame : ItemEvent → ItemEffect
  after : ℕ → ItemEvent → ItemEffect
  on_remove : String → ItemEffect

-- What the effect of a mounted item schedules.
pub item_mount : Toast → List ItemEffect
item_mount t = on_next_frame frame ∷ after (t.duration or_else 4000) timeout ∷ []

-- Whether the item is visible, and what is scheduled or called.
pub item_step : Toast → Bool → ItemEvent → Bool × List ItemEffect
item_step t visible frame = (true, [])
item_step t visible timeout = (false, after 300 gone ∷ [])
item_step t visible close = (false, after 300 gone ∷ [])
item_step t visible gone = (visible, on_remove t.id ∷ [])

pub item_view : Toast → List (Element ItemEvent)
unfolding icon
item_view t = embed (icon t.variant) ∷ text t.message ∷ button "" true close ∷ []

toast_views : List Toast → List (Element ItemEvent)
unfolding item_view
toast_views [] = []
toast_views (t ∷ ts) = item_view t ++ toast_views ts

pub provider_view : Toasts → List (Element ItemEvent)
unfolding toast_views
provider_view s = toast_views s.toasts

-- `MutationToastObserver`: the message of the toast for a mutation that fails.
pub observed_message : Option Failure → String
observed_message none = "Ocorreu um erro. Tente novamente."
observed_message (some f) = f.detail or_else f.message or_else "Ocorreu um erro. Tente novamente."

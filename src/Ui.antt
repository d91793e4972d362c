-- ===== src/Ui.antt =====
-- What the pages of frontend/src share: the effects that a handler has on the rest of the
-- program, the reports of the query library that a page reads, and what a page shows.
--
-- A page is a record of its `useState` values, a data type of its messages (what the user does
-- to a control, and what the query library calls back), and a function from a message and a
-- state to the new state and the effects. What it shows is the list of its elements in document
-- order; wrapping elements, icons and styling are left out.
pub mod Offers
pub mod Confirm
use ready_jlmirror.Common.{ℕ, String, Bool, true, false, List, [], ◌∷◌, ◌++◌, Option}

pub data Method : Type 0 where
  get post put patch delete : Method

-- A number as `Number(text)` reads it from an input: a decimal numeral is a natural number, and
-- any other text stands for itself (negative, fractional, or no number at all).
pub data Number : Type 0 where
  nat : ℕ → Number
  other : String → Number

-- The values of a request body. A field that is undefined is absent from the body.
mutual
  pub data Value : Type 0 where
    str : String → Value
    num : Number → Value
    strs : List String → Value
    flag : Bool → Value
    -- an object of texts
    dict : List (String × String) → Value
    -- a list of such objects
    dicts : List (List (String × String)) → Value
    null : Value
    -- an object, with its fields
    object : Fields → Value

  pub data Fields : Type 0 where
    no_fields : Fields
    with_field : String → Value → Fields → Fields

abbrev pub Body : Type 0
Body = List (String × Value)

-- The fields of a body, for an object within another.
unfoldable pub fields_of : Body → Fields
fields_of [] = no_fields
fields_of ((name, value) ∷ body) = with_field name value (fields_of body)

-- components/ui/toast.tsx, `ToastVariant`
pub data ToastVariant : Type 0 where
  success error warning info : ToastVariant

pub data Effect : Type 0 where
  -- `api.get`, `api.post`, ... with the path and the body
  request : Method → String → Option Body → Effect
  -- `fetch(path, { credentials: "include" })`, without the client
  plain_fetch : String → Effect
  -- `toast(message, variant)`
  notify : String → ToastVariant → Effect
  -- `qc.invalidateQueries({ queryKey })`
  invalidate : List String → Effect
  -- `navigate(path, { replace })`
  navigate : String → Bool → Effect
  -- `window.location.href = path`
  open_page : String → Effect
  -- `localStorage.setItem(key, value)`
  store : String → String → Effect
  -- `localStorage.setItem(key, JSON.stringify(texts))`
  store_texts : String → List String → Effect
  -- the callback of the parent that closes this component: `onBack`, `onDone`, `onClose`
  leave : Effect
  log_out : Effect
  -- `navigator.clipboard.writeText(text)`
  copy_text : String → Effect
  -- `setTimeout(callback, milliseconds)`, whose callback is a message
  timer : ℕ → Effect
  -- a file that the browser saves: its name and its contents
  save_file : String → String → Effect

-- What `useQuery` reports.
pub record Query {ℓ} (A : Type ℓ) : Type ℓ where
  pub result : Option A
  pub is_loading : Bool
  pub is_error : Bool
  pub is_fetching : Bool

-- What `useMutation` reports: whether a call is pending, and the variables of the last call.
pub record Mutation {ℓ} (V : Type ℓ) : Type ℓ where
  pub is_pending : Bool
  pub variables : Option V

-- What `useMutation` reports of its last call.
pub record Call : Type 0 where
  pub is_pending : Bool
  pub is_error : Bool
  pub is_success : Bool

-- components/ui/badge.tsx, the variants
pub data Variant : Type 0 where
  plain success warning danger info muted : Variant

pub data Element (M : Type 0) : Type 0 where
  text : String → Element M
  badge : Variant → String → Element M
  spinner : Element M
  -- a button: its label, whether it is enabled, and the message of a click
  button : String → Bool → M → Element M
  -- a clickable table row, before its cells
  row : M → Element M
  -- a text field: its label, its value, and the message of a change
  input : String → String → (String → M) → Element M
  -- a choice: its label, its value, its options (value and label), and the message of a change
  select : String → String → List (String × String) → (String → M) → Element M
  -- a check box: its label, whether it is checked, and the message of a change
  check : String → Bool → M → Element M
  link : String → String → Element M
  -- a component that stands in this place, by its name
  embed : String → Element M

-- The messages that a click on what is shown can send.
unfoldable pub offers : {M : Type 0} → List (Element M) → List M
offers [] = []
offers (button label true m ∷ view) = m ∷ offers view
offers (row m ∷ view) = m ∷ offers view
offers (check label checked m ∷ view) = m ∷ offers view
offers (_ ∷ view) = offers view

-- `{test && <view/>}`
unfoldable pub when : {M : Type 0} → Bool → List (Element M) → List (Element M)
when true v = v
when false v = []

-- `{list.map((a) => <view/>)}`
unfoldable pub each {ℓ} :
    {A : Type ℓ} {M : Type 0} → (A → List (Element M)) → List A → List (Element M)
each f [] = []
each f (a ∷ as') = f a ++ each f as'

-- What a component shows within another: its messages become those of the other.
relabelled : {M N : Type 0} → (M → N) → Element M → Element N
relabelled f (text t) = text t
relabelled f (badge v t) = badge v t
relabelled f spinner = spinner
relabelled f (button l b m) = button l b (f m)
relabelled f (row m) = row (f m)
relabelled f (input l t g) = input l t (λ u. f (g u))
relabelled f (select l t os g) = select l t os (λ u. f (g u))
relabelled f (check l b m) = check l b (f m)
relabelled f (link l t) = link l t
relabelled f (embed t) = embed t

unfoldable pub relabel : {M N : Type 0} → (M → N) → List (Element M) → List (Element N)
unfolding relabelled
relabel f [] = []
relabel f (e ∷ view) = relabelled f e ∷ relabel f view

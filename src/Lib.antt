-- ===== src/Lib.antt =====
-- The browser application under frontend/src: its HTTP client, the session's permissions, the
-- toasts, the shell with its menu and routes, and its pages.
--
-- How the parts work together. The client (frontend/src/api/client.ts) reads the CSRF token of the
-- cookie, calls `fetch` and turns a reply into a value or an error; for an expired session it
-- dispatches an event that the shell hears. The shell (frontend/src/components/Shell.tsx) shows
-- one of its screens by the state of the session, and in the frame the page of the current path;
-- the menu depends on the permissions (frontend/src/hooks/usePermission.ts). A page sends
-- requests, and its errors become toasts (frontend/src/components/ui/toast.tsx,
-- frontend/src/main.tsx).
--
-- How it is modelled. A component with state is a record of its `useState` values, a data type of
-- the messages that its handlers receive (what the user does, and what the query library calls
-- back), a function `update` from a message and a state to the new state and the effects, and a
-- function that gives the elements that it shows, in document order. Effects are values: a
-- request, a toast, a navigation, a write to localStorage, an invalidated query. Wrapping
-- elements, icons and styling are left out.
--
-- Common: Boolean tests, lists, text and dictionaries.
-- Ui: effects, what the query library reports, and elements; Ui/Confirm is
-- frontend/src/components/ui/confirm-modal.tsx (ConfirmModal); Ui/Offers has rules for what a view
-- offers.
-- Client: frontend/src/api/client.ts (csrfToken, headers, request, api, logout). Client/Uri is
-- decodeURIComponent of the language; Client/Csrf is about the token, Client/Requests about
-- requests.
-- Session: frontend/src/api/types.ts (Session) and frontend/src/hooks (usePermission,
-- useCanOperate, useCanAdmin, useBranding).
-- Toasts: frontend/src/components/ui/toast.tsx (ToastProvider, ToastItem) and
-- MutationToastObserver of frontend/src/main.tsx; Toasts/Numbers is about the identities.
-- Shell: frontend/src/components/Shell.tsx. Shell/Routes is about paths (VIEW_TO_PATH,
-- currentViewFromPath, goTo and the path that is kept), Shell/Menu about navGroups, Shell/Badges
-- about the counts, Shell/Frame about the state, the screens and, in Shell/Frame/View, what is
-- shown.
-- Alerts: frontend/src/pages/AlertsPage.tsx (AlertsPage, SnoozeControl and the helpers);
-- Alerts/View is what it shows, Alerts/Pages and Alerts/Highlight are about its pages and the
-- highlighted alert.
-- Escalation: frontend/src/pages/EscalationPage.tsx. Escalation/AddStep is AddStepForm,
-- Escalation/Link is LinkAlertPolicyModal, Escalation/Detail is PolicyDetailView,
-- Escalation/Page is the list of EscalationPage and Escalation/Screen puts the two together;
-- Escalation/Errors is about the texts of errors.
-- Maintenance: frontend/src/pages/MaintenancePage.tsx. Maintenance/SourceIds reads the source
-- identities, Maintenance/Form is about handleCreate, and Maintenance/View is what the page shows.
-- Inventory: frontend/src/pages/InventoryPage.tsx. Inventory/Cursors is about its pages,
-- Inventory/View is what it shows.
-- Noc: frontend/src/pages/NOCDashboard.tsx. Noc/Stream is the effect that keeps the stream of
-- events open, with what is reachable, Noc/Widgets the parts that are shown, Noc/View the view.
-- Policies: frontend/src/pages/AlertPoliciesPage.tsx. Policies/Form is PolicyForm, Policies/Page
-- is AlertPoliciesPage, Policies/Grouping is about groupPolicies.
-- Incident: frontend/src/pages/IncidentResponsePage.tsx. Incident/Event is EventDetail,
-- Incident/Policy is PolicyTab with its pickers, Incident/Page is EventsTab and the page.
-- Monitoring: frontend/src/pages/MonitoringPage.tsx. Monitoring/Slug is slugify,
-- Monitoring/AddSource, Monitoring/Rotate and Monitoring/Card are the components of these names.
-- ApiKeys: frontend/src/pages/ApiKeysPage.tsx. ApiKeys/Create is CreateKeyForm and NewKeyModal,
-- ApiKeys/Shown is about the list.
-- Channels: frontend/src/pages/NotificationChannelsPage.tsx; Channels/Add is AddDestinationForm.
-- AlertDetail: frontend/src/pages/AlertDetail.tsx.
-- Itsm: frontend/src/pages/ITSMPage.tsx. Itsm/Create is CreateRFCForm, Itsm/Change is RFCDetail.
-- Team: frontend/src/pages/TeamPage.tsx. Team/CreateUser is CreateUserModal with CredentialCard,
-- Team/Members and Team/Roles are the two sections.
-- Audit: frontend/src/pages/AuditPage.tsx; Audit/View is what it shows.
-- Kb: frontend/src/pages/KnowledgeBasePage.tsx. Kb/Editor is ArticleModal, Kb/Article is
-- ArticleDetailView, Kb/Page is KnowledgeBasePage.
-- Users: frontend/src/pages/UsersAdminPage.tsx. Users/Invite is InviteModal with TempPasswordModal,
-- Users/RoleCell and Users/Page are the components of these names.
-- Device: frontend/src/pages/DeviceDetail.tsx. Device/Names is about the patterns of names,
-- Device/Layout about what is kept, Device/Metrics about the overview and the grid, and Device/View
-- is what the page shows.
-- Onboarding: frontend/src/pages/OnboardingPage.tsx; Onboarding/Steps is about the order of its
-- steps, Onboarding/View is what they show.
-- StatusPublic: frontend/src/pages/StatusPublicPage.tsx.
-- Platform: frontend/src/pages/PlatformPage.tsx. Platform/Branding is BrandingCard,
-- Platform/StatusPage is StatusPageCard, Platform/Components is StatusPageComponentsCard.
-- Msp: frontend/src/pages/MSPOverviewPage.tsx; Msp/Panel is ClientDetailPanel.
-- Aiops: frontend/src/pages/AIOpsPage.tsx.
--
-- Every function is total. The only recursion that is not on the structure of its argument is that
-- of the decimal text of a number, on fuel of one more than the number, which is enough since each
-- step divides by ten.
--
-- Parameters stand for the browser and the libraries: the reply of `fetch`, what `useQuery` and
-- `useMutation` report, localStorage, and the texts and times of dates. Numbers that the service
-- sends are natural numbers, and times are milliseconds since 1970, at most 8.64e15 as those of
-- dates are.
--
-- Not modelled: styling, the other pages under frontend/src/pages, the scheduling of React and of
-- the query library (queries that are repeated after a time, retries), and all that is not the
-- browser application (api, bff, workers, providers, shared, sql, docker).
pub mod Aiops
pub mod AlertDetail
pub mod Alerts
pub mod ApiKeys
pub mod Audit
pub mod Channels
pub mod Client
pub mod Common
pub mod Device
pub mod Escalation
pub mod Incident
pub mod Inventory
pub mod Itsm
pub mod Kb
pub mod Maintenance
pub mod Monitoring
pub mod Msp
pub mod Noc
pub mod Onboarding
pub mod Platform
pub mod Policies
pub mod Session
pub mod Shell
pub mod StatusPublic
pub mod Team
pub mod Toasts
pub mod Ui
pub mod Users

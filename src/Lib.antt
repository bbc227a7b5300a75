-- ===== src/Lib.antt =====
-- The browser client of webbuilder, a site where a user describes a web page in a chat, an agent
-- builds it, and the page is previewed beside the chat. The client is in TypeScript and React, under
-- frontend/; the modules below follow its parts.
--
-- Chat/Types: frontend/types/chat.type.ts, the messages, tool calls, activity and progress events.
-- Chat/Events: `applyRunEvent` of frontend/socket/handleChatEvent.ts, which folds one progress
--   event of a run into the messages. Its children prove its parts: Calls on the list of tool
--   calls, Store on the place of the run's message, then Replay, Outcome and Frame.
-- Chat/Restore: `restoreRuns` of the same file, which rebuilds the messages from the runs of a
--   history by replaying their stored events through `applyRunEvent`.
-- Chat/Handler: `handleWebSocketMessage` of the same file, the fold over what a socket delivers. It
--   calls `apply_run_event`, `restore_runs` and `consolidate_messages`. Live is about the order of what
--   comes in, Snapshot compares it with Chat/Restore.
-- Chat/Consolidate: `consolidateMessages` of frontend/lib/chat/messages.ts.
-- Chat/Connection: `useChatConnection` of frontend/hooks/chat/useChatConnection.ts, which opens the
--   sockets, hands their messages to the handler and reconnects.
-- Chat/Workspace: `useChatWorkspace` of frontend/hooks/chat/useChatWorkspace.ts, which sends prompts
--   and stops runs; its chat is the one that the handler writes.
-- Chat/NewProject: `useNewProject` of frontend/hooks/chat/useNewProject.ts with
--   frontend/lib/projects/draft.ts and starterBriefs.ts: a prompt that outlives a sign-in.
-- Chat/Layout: `useWorkspaceLayout` of frontend/hooks/chat/useWorkspaceLayout.ts, the divider.
-- Chat/Landing and Chat/Activity: the form of frontend/components/landing/HeroPrompt.tsx, which leaves a
--   draft for the new project, and what frontend/components/chat/RunActivity.tsx and RunStatus.tsx say
--   of a run.
-- Chat/MessageBubble: frontend/components/chat/MessageBubble.tsx, which splits a message at its code
--   fences. Fences, Finds and Matches are about its two regular expressions, Parts about the split.
-- Chat/ToolList, Chat/ToolResult and Chat/CodeListing: the files of these names in
--   frontend/components/chat, which show the tool calls of a run with what ToolPresentation says.
-- Chat/Composer and Chat/Page: ChatInput.tsx and ChatWorkspace.tsx there, the form below a
--   conversation over Chat/Workspace, and the page around it over Chat/Layout.
-- Chat/InputBox and Chat/Showcase: ChatInputBox.tsx with ChatPage.tsx, the form of a new project, and
--   frontend/components/landing/ProjectShowcase.tsx, whose links open it, both over Chat/NewProject.
-- Files/ContentCache: frontend/lib/files/contentCache.ts, the bounded cache of saved files.
--   Refinement is about the map that it stands for.
-- Files/Tree: `buildFileTree` of frontend/lib/files/tree.ts, the tree of the saved files. Names and
--   Paths prove what one insertion does, Shown what becomes of a whole list. Language is
--   `getLanguageFromPath` of the same file.
-- Files/Viewer: `useFileViewer` of frontend/hooks/files/useFileViewer.ts, which shows one file, from
--   the cache or from the server. Memory is about its keys, Shown about what is on the screen, and
--   Downloads models the downloads.
-- Files/Browser: frontend/components/files, the panel that shows the tree and the file.
-- Files/ProjectFiles: `useProjectFiles` of frontend/hooks/files/useProjectFiles.ts, which keeps the
--   list of the saved files up to date while a run builds.
-- Auth/Session: frontend/lib/auth/session.ts, the credentials in localStorage. Ending a session
--   clears the file cache too.
-- Auth/Account: the user of frontend/types/auth.type.ts, and the copy of it in localStorage.
-- Auth/SignIn, Auth/SignUp, Auth/Verification, Auth/OAuth and Auth/Profile: the hooks of
--   frontend/hooks/auth and frontend/hooks/profile. They save sessions and copies of the user.
-- Auth/Profile/View: frontend/components/profile/ProfilePage.tsx, what is shown of a profile.
-- Auth/SignUp/Page: frontend/components/auth/SignUpPage.tsx with SocialLogin.tsx, over Auth/SignUp.
-- Auth/CreditReset: the countdown of frontend/components/profile/CreditReset.tsx.
-- Auth/Identity: frontend/components/profile/ProfileIdentityCard.tsx, the card over Auth/Profile.
-- Theme: frontend/components/layout/ThemeProvider.tsx, the theme in localStorage.
-- Http/Renewal and Http/Interceptors: frontend/lib/http/client.ts, the renewal of an expired token
--   and the interceptors that guard every request and answer. They read and write the session.
-- Http/Services: frontend/services and frontend/config/env.ts, the requests that are made. Credentials
--   is about what the interceptor adds to them.
-- Preview/Lifecycle: `usePreviewLifecycle` of frontend/hooks/preview/usePreviewLifecycle.ts, the
--   state machine that starts and watches a preview, with frontend/types/preview.type.ts.
-- Preview/Panel: frontend/components/chat/PreviewPanel.tsx, which shows the preview in a frame and keeps
--   the frame while the files are open.
-- Projects/Filters: `filterProjects` of frontend/lib/projects/filters.ts with
--   frontend/types/project.type.ts. Sorting is about any comparison, Order about this one.
-- Projects/Collection: `useProjectCollection` of frontend/hooks/projects/useProjectCollection.ts, with
--   the handlers of frontend/components/projects/ProjectCollection.tsx and ProjectDeleteDialog.tsx;
--   View is what they show of it.
-- Projects/Page: `useProjectsPage` of frontend/hooks/projects/useProjectsPage.ts.
-- ToolPresentation: `presentTool` of frontend/lib/tool-presentation.ts, how a tool call is described.
-- Samples: values for the tests. Json: the values that the program declares `unknown`.
-- Base: conditionals, lists, texts and code that may throw, for all the others.
--
-- How the code corresponds. A function keeps its name in snake case. Objects are records, unions
-- of texts are data types, arrays are lists, and a Map is a list in insertion order. A change in
-- place gives a new record. `undefined` and `null` are both `none`. A hook is a step function: its
-- state, its refs and the variables of its effects are a record, everything that can happen to it
-- is an `Event`, an async function is cut at its awaits, and what is awaited comes as a later event.
-- So any interleaving of timers, answers and user actions is a list of events.
--
-- What the code takes from outside are arguments: the clock, the visibility of the page, answers of
-- the server, `Date.parse`, `localeCompare`, `toLocaleLowerCase`, `crypto.randomUUID`,
-- `encodeURIComponent`, `URLSearchParams`, `JSON.stringify`, and which values localStorage and
-- sessionStorage accept. Numbers are the non-negative integers that the program handles; byte
-- counts, delays and times stay within the exact range of JavaScript's numbers. `JSON.parse` is not
-- modelled: a frame comes as what it parsed to. `Array.sort` is an insertion sort, which gives the
-- stable result that the language asks for wherever the comparison is a consistent order.
--
-- Only the split of a message takes fuel, one more than its size, which is more than it uses, as
-- it goes on after a fence each time. The other loops recurse on the list that they consume: the
-- eviction of the cache on its entries, `consolidateMessages` on the messages, a run of a hook on
-- its events.
--
-- Not modelled: the React components but for those named above, as they are markup around these
-- hooks; the widths of a container and the motion of dialogs; what an object inherits, which the
-- tables of `errors`, `languageMap` and `labels` would find; that `consolidateMessages` adds to a
-- list of calls that the copy of a message shares with the message it was given, which the model
-- leaves as it is; and the server (agent/, auth/, db/, main.py), which is in Python.
pub mod Base
pub mod Json
pub mod Chat
pub mod Files
pub mod Auth
pub mod Http
pub mod Preview
pub mod Projects
pub mod ToolPresentation
pub mod Samples
pub mod Theme

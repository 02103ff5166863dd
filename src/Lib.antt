-- ===== src/Lib.antt =====
-- launch-as: a broker service that starts programs under managed accounts, and the tools that talk
-- to it. The library models the parts of the program that decide on texts and on state.
--
-- The parts and how they interact. The launcher and the administration tool write a JSON request to
-- the control pipe; the broker parses it, checks it, does what it asks for, and answers in JSON; the
-- clients parse the answer. For an interactive launch the broker is in turn the client of the
-- launcher, which it asks for a lease on the desktop by a second pair of messages.
--
-- Which file models which part, with the paths of the repository:
--   * Base holds what the modules share: lists, results of readers and what they ensure.
--   * Utf8 is src/common/Utf8.h (IsValidUtf16, WideToUtf8, Utf8ToWide). WideCharToMultiByte and
--     MultiByteToWideChar belong to Windows: they are the record Win32Text, and what is documented
--     of them is the record IsStrict of Utf8.Encoding, beside the encodings themselves.
--   * AppContainer is src/common/AppContainerOptions.h; AppContainer.Distinct is about its loop.
--   * Json is the class JsonReader of src/protocol/BrokerProtocol.cpp; Json.Objects are ReadObject,
--     FirstSeen and ReadStringArray; Json.Writer is AppendJsonString. Its other modules hold the
--     lemmas on escapes, numbers, strings, arrays and members, on fuel and on invariants.
--   * Protocol is the vocabulary of src/protocol/BrokerProtocol.h and the checks of ids, SIDs, pipes
--     and accounts. Protocol.Request, Fields and Parse are ParseBrokerRequest: its variables, its
--     callbacks one by one, and the checks behind them. Protocol.Build holds the builders of the
--     requests, Protocol.Answers those of the answers, Protocol.Response the parsers of the
--     answers, Protocol.Lease both sides of the lease.
--   * Launcher is ParseOptions of src/launcher/LauncherOptions.cpp, with the types of its header;
--     Launcher.Written spells options as a command line.
--   * Sessions is the part of src/broker/BrokerApplication.cpp that admits and ends sessions
--     (TryReserveSession, ReleaseSession, HasActiveSession and ScopeLog), with Configure in
--     Sessions.Configure, behind its locks and without the audit. Sessions.Table holds the
--     lemmas on the table of accounts, Sessions.Limits the step relation of the broker and its
--     invariant, Sessions.Release what a reservation and its release do together. The restoration
--     of the folders is an argument: the Win32 error that it reports. The comparison of names,
--     _wcsicmp, is an argument too.
--   * CommandLine is src/common/WindowsCommandLine.cpp; CommandLine.Rules states how Windows programs
--     split a command line, as documented, and CommandLine.Quoted relates the two.
--   * Protocol.Launch relates BuildConsoleLaunchRequest and BuildInteractiveLaunchRequest to
--     ParseBrokerRequest.
--   * Host is src/conhost/PseudoConsoleHostInvocation.cpp and the part of BrokerApplication::Launch
--     that writes the console host's arguments, with the command line that BrokerProcessLauncher.cpp
--     makes of them. Host.Handed is about the arguments, Host.Lines about the line between them.
--   * ReadScope is src/broker/BrokerReadScope.cpp, the folders that an account is denied while it
--     has a session. ReadScope.Access is SetAccess, Scope the state with Restore, Visit the
--     traversal, Roots EnsureRoots and the namespace directories. The proofs stand in Leased,
--     Changed and Restored (one list), Pinned, Walked, Returned, Reached, Users and Namespace (the
--     scope), Sequences (its operations in any order), Denied, Blocked and Broadest. The disk and
--     the Win32 calls are arguments, which may answer differently at each moment. An object is
--     named by its path, since the scope keeps its directories open without sharing deletion, and
--     nobody else is taken to change their lists meanwhile. Visit descends 128 levels at most, as
--     the code does, so that no other fuel is needed. Observers are left out.
--   * Accounts holds the record of an enrollment, IsValidBrokerAccountName and the Win32 errors that
--     Enrollments and Registration share.
--   * Registration is src/broker/BrokerRegistration.cpp over the enrollments of Enrollments and an
--     interface for the Windows accounts, whose functions (CreateBrokerManagedLocalAccount,
--     GetBrokerAccountSid, ...) are Win32 calls. Its state is the accounts with the directory of the
--     enrollments, which a Load changes too where it makes the key. Registration.Managed says which
--     accounts it may change.
--   * Enrollments is src/broker/BrokerEnrollmentStore.cpp: the bytes of a record, Store, Load, Remove
--     and the key. The HMAC and the checks of a SID are arguments. Codec, Tags, Stored, Authentic
--     and Loaded hold the proofs. Temporary files, which no operation reads, are left out, and a
--     file is named by its account.
--   * Passwords is GenerateBrokerPassword of src/broker/BrokerPassword.cpp. BCryptGenRandom is a list
--     of what its calls report; where the list is too short a run is stuck. Swaps, Generated and
--     Enough hold the proofs. SecurePassword, which keeps
--     and clears the memory of a password, is left out.
--   * CallerPolicy is src/broker/BrokerCallerPolicy.cpp, with the file of the policy as its bytes;
--     CallerPolicy.Kept says who may call the broker after an update.
--   * Tests holds the properties at concrete inputs, and a converter that satisfies IsStrict.
--
-- State and errors. The position of a JsonReader is the list of the bytes that are left, and a
-- reader returns it with its value. The variables of a parser that its callbacks set are the fields
-- of a record (Reading, Answer, LeaseReading, LeaseAnswer). A bool that reports failure is the
-- Outcome `rejected`; the out parameters are the value of `ok`. `stuck` has no counterpart in the
-- program: a loop of the model ran out of fuel.
--
-- Bounds. A loop of the reader has as fuel the number of bytes that are left: each round takes at
-- least one, so that this is enough. Numbers are natural
-- numbers; a DWORD is read with the check of std::from_chars, and bytes and code units are numbers
-- that the writer splits by division where the program shifts and masks.
--
-- Not modelled: the calls of Windows (pipes, tokens, accounts, access lists, pseudoconsoles), the
-- threads around them, the writable folders and those of AppContainers, the launch of processes, the
-- command line and the installer of the administration tool, and the log.
pub mod Base
pub mod Utf8
pub mod Json
pub mod AppContainer
pub mod Protocol
pub mod Accounts
pub mod Launcher
pub mod Sessions
pub mod CommandLine
pub mod Host
pub mod ReadScope
pub mod Registration
pub mod Enrollments
pub mod Passwords
pub mod CallerPolicy
pub mod Tests
